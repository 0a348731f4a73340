-- ===== src/Xpb.antt =====
-- xpb.go: the cursor over a server-supplied parameter block, and the writer of such blocks.
-- A `none` is a Go panic: an index or a slice out of range.
pub mod Bounds
pub mod RoundTrip
mod Tests
use firebirdsql_go.Base.{
  ℕ, ◌+◌, ◌-◌, ◌^◌, ◌≤◌, ℤ, pos, negsuc, Bool, true, false, ◌&&◌, Option, none, some, List, [], ◌∷◌,
  ◌++◌, length, get_elem?, take, drop, leb, ltb, i16, if◌then◌else◌, u16, ◌>>=◌,
}
use firebirdsql_go.Bytes.{
  int16_to_bytes, int32_to_bytes, int64_to_bytes, bytes_to_int16, bytes_to_int32, bytes_to_int64,
}

-- The messages of `fail`, by the read that it belongs to.
pub data Failure : Type 0 where
  skip_range get_past_end string_range int16_past_end int32_past_end int64_past_end : Failure

-- The field `err` holds the first failure.
pub record XpbReader : Type 0 where
  pub buf : List ℕ
  pub cursor : ℕ
  pub err : Option Failure

-- What a read leaves: the cursor's new state and the value, or a panic.
abbrev pub Read : Type 0 → Type 0
Read A = Option (XpbReader × A)

unfoldable pub new_reader : List ℕ → XpbReader
new_reader buf = record { buf = buf; cursor = 0; err = none }

abbrev pub or_first : Option Failure → Failure → Option Failure
or_first none f = some f
or_first (some e) f = some e

-- Records the first failure, and parks the cursor at the end.
unfoldable pub fail : XpbReader → Failure → XpbReader
fail r f = record r { cursor = length r.buf; err = or_first r.err f }

-- Go's `buf[lo:hi]`.
abbrev pub slice : List ℕ → ℕ → ℕ → Option (List ℕ)
slice xs lo hi =
    if leb lo hi && leb hi (length xs) then some (take (hi - lo) (drop lo xs)) else none

unfoldable pub at_end : XpbReader → Bool
at_end r = leb (length r.buf) r.cursor

-- `Next`: no value at the end.
unfoldable pub next : XpbReader → Read (Option ℕ)
unfolding at_end
next r =
    if at_end r
    then some (r, none)
    else (get_elem? r.buf r.cursor >>= λ b. some (record r { cursor = r.cursor + 1 }, some b))

-- `Skip` where the sum of position and count is an int of 64 bits. The count may be negative.
unfoldable pub skip_within : XpbReader → ℤ → XpbReader
unfolding fail
skip_within r (negsuc n) = fail r skip_range
skip_within r (pos count) =
    if ltb (length r.buf) (r.cursor + count)
    then fail r skip_range
    else record r { cursor = r.cursor + count }

-- `Skip` by any int. A sum from 2 ^ 63 on wraps, is not past the end, and leaves a negative
-- position, at which `Next`, `Get` and the others index the buffer: that is the panic here.
unfoldable pub skip : XpbReader → ℤ → Option XpbReader
unfolding skip_within
skip r (negsuc n) = some (skip_within r (negsuc n))
skip r (pos count) =
    if leb (2 ^ 63) (r.cursor + count) then none else some (skip_within r (pos count))

unfoldable pub get : XpbReader → Read ℕ
unfolding fail
get r =
    if leb (length r.buf) r.cursor
    then some (fail r get_past_end, 0)
    else (get_elem? r.buf r.cursor >>= λ b. some (r, b))

unfoldable pub get_int16 : XpbReader → Read ℤ
unfolding fail
get_int16 r =
    if ltb (length r.buf) (r.cursor + 2)
    then some (fail r int16_past_end, pos 0)
    else (slice r.buf r.cursor (r.cursor + 2) >>= λ s.
        bytes_to_int16 s >>= λ v. some (record r { cursor = r.cursor + 2 }, v))

unfoldable pub get_int32 : XpbReader → Read ℤ
unfolding fail
get_int32 r =
    if ltb (length r.buf) (r.cursor + 4)
    then some (fail r int32_past_end, pos 0)
    else (slice r.buf r.cursor (r.cursor + 4) >>= λ s.
        bytes_to_int32 s >>= λ v. some (record r { cursor = r.cursor + 4 }, v))

unfoldable pub get_int64 : XpbReader → Read ℤ
unfolding fail
get_int64 r =
    if ltb (length r.buf) (r.cursor + 8)
    then some (fail r int64_past_end, pos 0)
    else (slice r.buf r.cursor (r.cursor + 8) >>= λ s.
        bytes_to_int64 s >>= λ v. some (record r { cursor = r.cursor + 8 }, v))

-- The part of `GetString` behind its length word.
unfoldable pub string_body : XpbReader → ℤ → Read (List ℕ)
unfolding fail
string_body r (negsuc n) = some (fail r string_range, [])
string_body r (pos l) =
    if ltb (length r.buf) (r.cursor + l)
    then some (fail r string_range, [])
    else (slice r.buf r.cursor (r.cursor + l) >>= λ s. some (record r { cursor = r.cursor + l }, s))

unfoldable pub get_string : XpbReader → Read (List ℕ)
get_string r = get_int16 r >>= λ (r', l). string_body r' l

unfoldable pub reset : XpbReader → XpbReader
reset r = record r { cursor = 0; err = none }

-- The writer is its buffer; each operation appends to it.
unfoldable pub put_tag : List ℕ → ℕ → List ℕ
put_tag w tag = w ++ tag ∷ []

unfoldable pub put_byte : List ℕ → ℕ → ℕ → List ℕ
put_byte w tag val = w ++ tag ∷ val ∷ []

unfoldable pub put_int16 : List ℕ → ℕ → ℤ → List ℕ
put_int16 w tag val = (w ++ tag ∷ []) ++ int16_to_bytes val

unfoldable pub put_int32 : List ℕ → ℕ → ℤ → List ℕ
put_int32 w tag val = (w ++ tag ∷ []) ++ int32_to_bytes val

unfoldable pub put_int64 : List ℕ → ℕ → ℤ → List ℕ
put_int64 w tag val = (w ++ tag ∷ []) ++ int64_to_bytes val

-- `int16(len(strBytes))` wraps.
unfoldable pub put_string : List ℕ → ℕ → List ℕ → List ℕ
put_string w tag val = ((w ++ tag ∷ []) ++ int16_to_bytes (i16 (u16 (pos (length val))))) ++ val

unfoldable pub put_bytes : List ℕ → List ℕ → List ℕ
put_bytes w bytes = w ++ bytes

unfoldable pub writer_from_tag : ℕ → List ℕ
unfolding put_tag
writer_from_tag tag = put_tag [] tag

unfoldable pub writer_from_bytes : List ℕ → List ℕ
unfolding put_bytes
writer_from_bytes bytes = put_bytes [] bytes
