-- ===== src/Xpb/RoundTrip.antt =====
-- A block that an `XPBWriter` wrote, read back by an `XPBReader`: the tag by `Next` and the value by
-- the getter of its kind.
use firebirdsql_go.Base.{
  ◌>>=◌, ℕ, ◌+◌, ◌-◌, ◌^◌, ◌≤◌, ◌<◌, ◌≡◌, refl, sym, ◌∙◌, arith, ℤ, pos, true, false, Option, none,
  some, List, [], ◌∷◌, ◌++◌, map, append_assoc, append-nil, length, length-append, get_elem?-append,
  drop-append, take-append, ltb, leb, IsI16, IsI32, IsI64, u16, i16, All,
}
use firebirdsql_go.Bytes.{
  int16_to_bytes, int32_to_bytes, int64_to_bytes, bytes_to_int16, bytes_to_int32, bytes_to_int64,
}
use firebirdsql_go.Bytes.RoundTrip.{int16_round_trip, int32_round_trip, int64_round_trip}
use firebirdsql_go.Xpb.{
  XpbReader, Read, new_reader, slice, at_end, next, get_int16, get_int32, get_int64, string_body,
  get_string, put_tag, put_byte, put_int16, put_int32, put_int64, put_string,
}

-- What a writer is asked to put, and what a reader gives back. A byte is read by `Next`.
pub data Field : Type 0 where
  tag_field : ℕ → Field
  byte_field : ℕ → ℕ → Field
  int16_field int32_field int64_field : ℕ → ℤ → Field
  string_field : ℕ → List ℕ → Field

pub data Kind : Type 0 where
  tag_kind byte_kind int16_kind int32_kind int64_kind string_kind : Kind

abbrev pub kind_of : Field → Kind
kind_of (tag_field t) = tag_kind
kind_of (byte_field t v) = byte_kind
kind_of (int16_field t v) = int16_kind
kind_of (int32_field t v) = int32_kind
kind_of (int64_field t v) = int64_kind
kind_of (string_field t v) = string_kind

-- The values that the width of their field can hold.
abbrev pub Fits : Field → Type 0
Fits (tag_field t) = Unit {0}
Fits (byte_field t v) = Unit {0}
Fits (int16_field t v) = IsI16 v
Fits (int32_field t v) = IsI32 v
Fits (int64_field t v) = IsI64 v
Fits (string_field t v) = length v < 2 ^ 15

unfoldable pub put_field : List ℕ → Field → List ℕ
put_field w (tag_field t) = put_tag w t
put_field w (byte_field t v) = put_byte w t v
put_field w (int16_field t v) = put_int16 w t v
put_field w (int32_field t v) = put_int32 w t v
put_field w (int64_field t v) = put_int64 w t v
put_field w (string_field t v) = put_string w t v

unfoldable pub put_fields : List ℕ → List Field → List ℕ
put_fields w [] = w
put_fields w (f ∷ fs) = put_fields (put_field w f) fs

-- `Next` where a consumer counts on a byte: no value is a failure of the whole read.
abbrev want : Read (Option ℕ) → Read ℕ
want m = m >>= λ (r, o). (o >>= λ b. some (r, b))

read_value : Kind → ℕ → XpbReader → Read Field
read_value tag_kind t r = some (r, tag_field t)
read_value byte_kind t r = want (next r) >>= λ (q, v). some (q, byte_field t v)
read_value int16_kind t r = get_int16 r >>= λ (q, v). some (q, int16_field t v)
read_value int32_kind t r = get_int32 r >>= λ (q, v). some (q, int32_field t v)
read_value int64_kind t r = get_int64 r >>= λ (q, v). some (q, int64_field t v)
read_value string_kind t r = get_string r >>= λ (q, v). some (q, string_field t v)

pub read_field : Kind → XpbReader → Read Field
unfolding read_value
read_field k r = want (next r) >>= λ (q, t). read_value k t q

pub read_fields : List Kind → XpbReader → Read (List Field)
read_fields [] r = some (r, [])
read_fields (k ∷ ks) r =
    read_field k r >>= λ (q, f). read_fields ks q >>= λ (p, fs). some (p, f ∷ fs)

-- A reader with no error that stands behind the bytes `front` and before the bytes `back`.
abbrev pub between : List ℕ → List ℕ → XpbReader
between front back = record { buf = front ++ back; cursor = length front; err = none }

-- It has moved over `mid`.
between-append :
    (front mid back : List ℕ)
    → between (front ++ mid) back
      ≡ record { buf = front ++ (mid ++ back); cursor = length front + length mid; err = none }
between-append front mid back i = record {
  buf = append_assoc front mid back i;
  cursor = length-append front mid i;
  err = none;
}

pub next-between :
    (front : List ℕ) (b : ℕ) (back : List ℕ)
    → next (between front (b ∷ back)) ≡ some (between (front ++ b ∷ []) back, some b)
unfolding next
next-between front b back = rw (
  ltb_false (length (front ++ b ∷ back)) (length front)
      (omega (arith, length-append front (b ∷ back))),
  get_elem?-append front (b ∷ back),
  between-append front (b ∷ []) back,
)
  where
    ltb_false : (n m : ℕ) → m < n → leb n m ≡ false
    ltb_false n m h = ground arith

slice-between :
    (front mid back : List ℕ)
    → slice (front ++ (mid ++ back)) (length front) (length front + length mid) ≡ some mid
slice-between front mid back = rw (
  leb_true (length front) (length front + length mid) (omega arith),
  leb_true (length front + length mid) (length (front ++ (mid ++ back)))
      (omega (arith, length-append front (mid ++ back), length-append mid back)),
  drop-append front (mid ++ back),
  span (length front) (length mid),
  take-append mid back,
)
  where
    leb_true : (n m : ℕ) → n ≤ m → leb n m ≡ true
    leb_true n m h = ground arith

    span : (n m : ℕ) → n + m - n ≡ m
    span n m = omega arith

fits-between :
    (front mid back : List ℕ)
    → ltb (length (front ++ (mid ++ back))) (length front + length mid) ≡ false
fits-between front mid back =
    not_lt _ _ (omega (arith, length-append front (mid ++ back), length-append mid back))
  where
    not_lt : (n m : ℕ) → m ≤ n → ltb n m ≡ false
    not_lt n m h = ground arith

int16_alone : (z : ℤ) → IsI16 z → bytes_to_int16 (int16_to_bytes z) ≡ some z
int16_alone z h = rw append-nil at (int16_round_trip z [] h)

get_int16-between :
    (front back : List ℕ) (z : ℤ)
    → IsI16 z
    → get_int16 (between front (int16_to_bytes z ++ back))
      ≡ some (between (front ++ int16_to_bytes z) back, z)
unfolding get_int16 int16_to_bytes
get_int16-between front back z h = rw (
  fits-between front (int16_to_bytes z) back,
  slice-between front (int16_to_bytes z) back,
  int16_alone z h,
  between-append front (int16_to_bytes z) back,
)

int32_alone : (z : ℤ) → IsI32 z → bytes_to_int32 (int32_to_bytes z) ≡ some z
int32_alone z h = rw append-nil at (int32_round_trip z [] h)

pub get_int32-between :
    (front back : List ℕ) (z : ℤ)
    → IsI32 z
    → get_int32 (between front (int32_to_bytes z ++ back))
      ≡ some (between (front ++ int32_to_bytes z) back, z)
unfolding get_int32 int32_to_bytes
get_int32-between front back z h = rw (
  fits-between front (int32_to_bytes z) back,
  slice-between front (int32_to_bytes z) back,
  int32_alone z h,
  between-append front (int32_to_bytes z) back,
)

int64_alone : (z : ℤ) → IsI64 z → bytes_to_int64 (int64_to_bytes z) ≡ some z
int64_alone z h = rw append-nil at (int64_round_trip z [] h)

get_int64-between :
    (front back : List ℕ) (z : ℤ)
    → IsI64 z
    → get_int64 (between front (int64_to_bytes z ++ back))
      ≡ some (between (front ++ int64_to_bytes z) back, z)
unfolding get_int64 int64_to_bytes
get_int64-between front back z h = rw (
  fits-between front (int64_to_bytes z) back,
  slice-between front (int64_to_bytes z) back,
  int64_alone z h,
  between-append front (int64_to_bytes z) back,
)

string_body-between :
    (front back s : List ℕ)
    → string_body (between front (s ++ back)) (pos (length s)) ≡ some (between (front ++ s) back, s)
unfolding string_body
string_body-between front back s =
    rw (fits-between front s back, slice-between front s back, between-append front s back)

-- Below 2 ^ 15 the length word does not wrap.
length_word : (n : ℕ) → n < 2 ^ 15 → i16 (u16 (pos n)) ≡ pos n
length_word n h = ground arith

-- A string behind its length word.
abbrev pub string_bytes : List ℕ → List ℕ
string_bytes s = int16_to_bytes (i16 (u16 (pos (length s)))) ++ s

pub get_string-between :
    (front back s : List ℕ)
    → length s < 2 ^ 15
    → get_string (between front (string_bytes s ++ back))
      ≡ some (between (front ++ string_bytes s) back, s)
unfolding get_string
get_string-between front back s h = rw (
  length_word (length s) h,
  append_assoc (int16_to_bytes (pos (length s))) s back,
  get_int16-between front (s ++ back) (pos (length s)) h,
  string_body-between (front ++ int16_to_bytes (pos (length s))) back s,
  append_assoc front (int16_to_bytes (pos (length s))) s,
)

-- What `put_field` appends.
abbrev field_bytes : Field → List ℕ
field_bytes (tag_field t) = t ∷ []
field_bytes (byte_field t v) = t ∷ v ∷ []
field_bytes (int16_field t v) = t ∷ int16_to_bytes v
field_bytes (int32_field t v) = t ∷ int32_to_bytes v
field_bytes (int64_field t v) = t ∷ int64_to_bytes v
field_bytes (string_field t v) = t ∷ (int16_to_bytes (i16 (u16 (pos (length v)))) ++ v)

abbrev block_bytes : List Field → List ℕ
block_bytes [] = []
block_bytes (f ∷ fs) = field_bytes f ++ block_bytes fs

put_field-bytes : (w : List ℕ) (f : Field) → put_field w f ≡ w ++ field_bytes f
unfolding put_field put_tag put_byte put_int16 put_int32 put_int64 put_string
put_field-bytes w (tag_field t) = refl
put_field-bytes w (byte_field t v) = refl
put_field-bytes w (int16_field t v) = append_assoc w (t ∷ []) (int16_to_bytes v)
put_field-bytes w (int32_field t v) = append_assoc w (t ∷ []) (int32_to_bytes v)
put_field-bytes w (int64_field t v) = append_assoc w (t ∷ []) (int64_to_bytes v)
put_field-bytes w (string_field t v) = simp append_assoc

pub put_fields-bytes : (w : List ℕ) (fs : List Field) → put_fields w fs ≡ w ++ block_bytes fs
unfolding put_fields
put_fields-bytes w [] = sym (append-nil w)
put_fields-bytes w (f ∷ fs) =
    put_fields-bytes (put_field w f) fs
    ∙ rw (put_field-bytes w f) (append_assoc w (field_bytes f) (block_bytes fs))

-- One field, wherever it stands in a block.
read_field-between :
    (front back : List ℕ) (f : Field)
    → Fits f
    → read_field (kind_of f) (between front (field_bytes f ++ back))
      ≡ some (between (front ++ field_bytes f) back, f)
unfolding read_field read_value get_string
read_field-between front back (tag_field t) h = rw next-between
read_field-between front back (byte_field t v) h = rw (
  next-between front t (v ∷ back),
  next-between (front ++ t ∷ []) v back,
  append_assoc front (t ∷ []) (v ∷ []),
)
read_field-between front back (int16_field t v) h = rw (
  next-between front t (int16_to_bytes v ++ back),
  get_int16-between (front ++ t ∷ []) back v h,
  append_assoc front (t ∷ []) (int16_to_bytes v),
)
read_field-between front back (int32_field t v) h = rw (
  next-between front t (int32_to_bytes v ++ back),
  get_int32-between (front ++ t ∷ []) back v h,
  append_assoc front (t ∷ []) (int32_to_bytes v),
)
read_field-between front back (int64_field t v) h = rw (
  next-between front t (int64_to_bytes v ++ back),
  get_int64-between (front ++ t ∷ []) back v h,
  append_assoc front (t ∷ []) (int64_to_bytes v),
)
read_field-between front back (string_field t v) h = rw (
  length_word (length v) h,
  next-between front t ((int16_to_bytes (pos (length v)) ++ v) ++ back),
  append_assoc (int16_to_bytes (pos (length v))) v back,
  get_int16-between (front ++ t ∷ []) (v ++ back) (pos (length v)) h,
  string_body-between ((front ++ t ∷ []) ++ int16_to_bytes (pos (length v))) back v,
  append_assoc (front ++ t ∷ []) (int16_to_bytes (pos (length v))) v,
  append_assoc front (t ∷ []) (int16_to_bytes (pos (length v)) ++ v),
)

read_fields-between :
    (front : List ℕ) (fs : List Field)
    → All Fits fs
    → read_fields (map kind_of fs) (between front (block_bytes fs))
      ≡ some (between (front ++ block_bytes fs) [], fs)
unfolding read_fields
read_fields-between front [] h = simp append-nil
read_fields-between front (f ∷ fs) h = rw (
  read_field-between front (block_bytes fs) f h.0,
  read_fields-between (front ++ field_bytes f) fs h.1,
  append_assoc front (field_bytes f) (block_bytes fs),
)

-- Every block that a new writer wrote reads back, field by field, without an error and to its end.
-- Each value must fit its field: the strings are shorter than 2 ^ 15 bytes.
pub read_fields-put_fields :
    (fs : List Field)
    → All Fits fs
    → (r : XpbReader) × (read_fields (map kind_of fs) (new_reader (put_fields [] fs))
        ≡ some (r, fs))
      × (r.err ≡ none)
      × (at_end r ≡ true)
unfolding new_reader at_end
read_fields-put_fields fs h = (
  between (block_bytes fs) [],
  rw (put_fields-bytes [] fs) (read_fields-between [] fs h),
  refl,
  rw append-nil (at_own_end (length (block_bytes fs))),
)
  where
    at_own_end : (n : ℕ) → leb n n ≡ true
    at_own_end n = ground arith
