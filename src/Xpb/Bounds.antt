-- ===== src/Xpb/Bounds.antt =====
-- No read of an `XpbReader` leaves the buffer, and none is a panic, whatever the server sent.
use firebirdsql_go.Base.{
  ◌>>=◌, ℕ, ◌+◌, ◌-◌, ◌^◌, ◌≤◌, ◌<◌, ◌≡◌, refl, ap, ◌∙◌, arith, false, All, ℤ, pos, negsuc, inl,
  inr, Option, none, some, List, [], ◌∷◌, length, get_elem?-lt, take, drop, length-take,
  length-drop, ltb, leb, Bool-cases,
}
use firebirdsql_go.Bytes.{bytes_to_int16, bytes_to_int32, bytes_to_int64}
use firebirdsql_go.Xpb.{
  XpbReader, Read, Failure, get_past_end, string_range, int16_past_end, int32_past_end,
  int64_past_end, new_reader, or_first, fail, slice, next, skip_within, skip, get, get_int16,
  get_int32, get_int64, string_body, get_string, reset,
}

abbrev pub InBounds : XpbReader → Type 0
InBounds r = r.cursor ≤ length r.buf

-- The buffer and an error that is set already stay; the cursor stays in the buffer, and a cursor in
-- the buffer does not go back.
pub record Kept (r r' : XpbReader) : Type 0 where
  pub same_buf : r'.buf ≡ r.buf
  pub bounded : r'.cursor ≤ length r.buf
  pub sticky : (f : Failure) → r.err ≡ some f → r'.err ≡ some f
  pub forward : InBounds r → r.cursor ≤ r'.cursor

-- The read returns, and keeps those.
abbrev pub Safe : {A : Type 0} → XpbReader → Read A → Type 0
Safe {A = A} r m = (r' : XpbReader) × (a : A) × (m ≡ some (r', a)) × Kept r r'

or_first-sticky : (e : Option Failure) (f g : Failure) → e ≡ some g → or_first e f ≡ some g
or_first-sticky none f g h = cc
or_first-sticky (some e) f g h = h

fail-Kept : (r : XpbReader) (f : Failure) → Kept r (fail r f)
unfolding fail
fail-Kept r f = record {
  same_buf = refl;
  bounded = omega arith;
  sticky = λ g h. or_first-sticky r.err f g h;
  forward = λ h. h;
}

move-Kept :
    (r : XpbReader) (n : ℕ) → n ≤ length r.buf → r.cursor ≤ n → Kept r (record r { cursor = n })
move-Kept r n h k = record { same_buf = refl; bounded = h; sticky = λ g e. e; forward = λ b. k }

slice_ok :
    (xs : List ℕ) (i n : ℕ)
    → i + n ≤ length xs
    → (s : List ℕ) × (slice xs i (i + n) ≡ some s) × (length s ≡ n)
slice_ok xs i n h = (
  take (i + n - i) (drop i xs),
  ground arith,
  omega (arith, length-take (i + n - i) (drop i xs), length-drop i xs),
)

int16_of : (s : List ℕ) → length s ≡ 2 → (v : ℤ) × (bytes_to_int16 s ≡ some v)
unfolding bytes_to_int16
int16_of [] h = absurd (omega arith)
int16_of (a ∷ []) h = absurd (omega arith)
int16_of (a ∷ b ∷ s) h = (_, refl)

int32_of : (s : List ℕ) → length s ≡ 4 → (v : ℤ) × (bytes_to_int32 s ≡ some v)
unfolding bytes_to_int32
int32_of [] h = absurd (omega arith)
int32_of (a ∷ []) h = absurd (omega arith)
int32_of (a ∷ b ∷ []) h = absurd (omega arith)
int32_of (a ∷ b ∷ c ∷ []) h = absurd (omega arith)
int32_of (a ∷ b ∷ c ∷ d ∷ s) h = (_, refl)

int64_of : (s : List ℕ) → length s ≡ 8 → (v : ℤ) × (bytes_to_int64 s ≡ some v)
unfolding bytes_to_int64
int64_of [] h = absurd (omega arith)
int64_of (a ∷ []) h = absurd (omega arith)
int64_of (a ∷ b ∷ []) h = absurd (omega arith)
int64_of (a ∷ b ∷ c ∷ []) h = absurd (omega arith)
int64_of (a ∷ b ∷ c ∷ d ∷ []) h = absurd (omega arith)
int64_of (a ∷ b ∷ c ∷ d ∷ e ∷ []) h = absurd (omega arith)
int64_of (a ∷ b ∷ c ∷ d ∷ e ∷ f ∷ []) h = absurd (omega arith)
int64_of (a ∷ b ∷ c ∷ d ∷ e ∷ f ∷ g ∷ []) h = absurd (omega arith)
int64_of (a ∷ b ∷ c ∷ d ∷ e ∷ f ∷ g ∷ k ∷ s) h = (_, refl)

next-Safe : (r : XpbReader) → InBounds r → Safe r (next r)
unfolding next
next-Safe r h = elim (Bool-cases (leb (length r.buf) r.cursor)) [
  | inl done ↦ (r, none, rw done, move-Kept r r.cursor h (omega arith))
  | inr more ↦
      let (b, e) = get_elem?-lt r.buf r.cursor (ground arith) in
      (
        record r { cursor = r.cursor + 1 },
        some b,
        rw (more, e),
        move-Kept r _ (ground arith) (omega arith),
      )
]

get-Safe : (r : XpbReader) → InBounds r → Safe r (get r)
unfolding get
get-Safe r h = elim (Bool-cases (leb (length r.buf) r.cursor)) [
  | inl done ↦ (fail r get_past_end, 0, rw done, fail-Kept r _)
  | inr more ↦
      let (b, e) = get_elem?-lt r.buf r.cursor (ground arith) in
      (r, b, rw (more, e), move-Kept r _ h (omega arith))
]

pub get_int16-Safe : (r : XpbReader) → Safe r (get_int16 r)
unfolding get_int16
get_int16-Safe r = elim (Bool-cases (ltb (length r.buf) (r.cursor + 2))) [
  | inl short ↦ (fail r int16_past_end, pos 0, rw short, fail-Kept r _)
  | inr fits ↦
      let (s, e, l) = slice_ok r.buf r.cursor 2 (ground arith) in
      let (v, d) = int16_of s l in
      (
        record r { cursor = r.cursor + 2 },
        v,
        rw (fits, e, d),
        move-Kept r _ (ground arith) (omega arith),
      )
]

pub get_int32-Safe : (r : XpbReader) → Safe r (get_int32 r)
unfolding get_int32
get_int32-Safe r = elim (Bool-cases (ltb (length r.buf) (r.cursor + 4))) [
  | inl short ↦ (fail r int32_past_end, pos 0, rw short, fail-Kept r _)
  | inr fits ↦
      let (s, e, l) = slice_ok r.buf r.cursor 4 (ground arith) in
      let (v, d) = int32_of s l in
      (
        record r { cursor = r.cursor + 4 },
        v,
        rw (fits, e, d),
        move-Kept r _ (ground arith) (omega arith),
      )
]

pub get_int64-Safe : (r : XpbReader) → Safe r (get_int64 r)
unfolding get_int64
get_int64-Safe r = elim (Bool-cases (ltb (length r.buf) (r.cursor + 8))) [
  | inl short ↦ (fail r int64_past_end, pos 0, rw short, fail-Kept r _)
  | inr fits ↦
      let (s, e, l) = slice_ok r.buf r.cursor 8 (ground arith) in
      let (v, d) = int64_of s l in
      (
        record r { cursor = r.cursor + 8 },
        v,
        rw (fits, e, d),
        move-Kept r _ (ground arith) (omega arith),
      )
]

string_body-Safe : (r : XpbReader) (l : ℤ) → Safe r (string_body r l)
unfolding string_body
string_body-Safe r (negsuc n) = (fail r _, [], refl, fail-Kept r _)
string_body-Safe r (pos n) = elim (Bool-cases (ltb (length r.buf) (r.cursor + n))) [
  | inl short ↦ (fail r string_range, [], rw short, fail-Kept r _)
  | inr fits ↦
      let (s, e, l) = slice_ok r.buf r.cursor n (ground arith) in
      (
        record r { cursor = r.cursor + n },
        s,
        rw (fits, e),
        move-Kept r _ (ground arith) (omega arith),
      )
]

pub Kept-trans : {a b c : XpbReader} → Kept a b → Kept b c → Kept a c
Kept-trans h k = record {
  same_buf = k.same_buf ∙ h.same_buf;
  bounded = rw (← h.same_buf) k.bounded;
  sticky = λ f e. k.sticky f (h.sticky f e);
  forward = λ i. omega (arith, h.forward i, k.forward (rw h.same_buf h.bounded));
}

pub get_string-Safe : (r : XpbReader) → Safe r (get_string r)
unfolding get_string
get_string-Safe r =
    let (r', l, e, k) = get_int16-Safe r in
    let (q, s, d, m) = string_body-Safe r' l in (q, s, rw (e, d), Kept-trans k m)

pub skip_within-Kept : (r : XpbReader) (n : ℤ) → Kept r (skip_within r n)
unfolding skip_within
skip_within-Kept r (negsuc n) = fail-Kept r _
skip_within-Kept r (pos n) = elim (Bool-cases (ltb (length r.buf) (r.cursor + n))) [
  | inl short ↦ rw short (fail-Kept r _)
  | inr fits ↦ rw fits (move-Kept r _ (ground arith) (omega arith))
]

-- A call of the reader by a consumer of the block.
pub data Call : Type 0 where
  next_call get_call string_call int16_call int32_call int64_call reset_call : Call
  skip_call : ℤ → Call

-- The state that a call leaves; its value is the caller's.
pub perform : XpbReader → Call → Option XpbReader
perform r next_call = next r >>= λ (q, v). some q
perform r get_call = get r >>= λ (q, v). some q
perform r string_call = get_string r >>= λ (q, v). some q
perform r int16_call = get_int16 r >>= λ (q, v). some q
perform r int32_call = get_int32 r >>= λ (q, v). some q
perform r int64_call = get_int64 r >>= λ (q, v). some q
perform r reset_call = some (reset r)
perform r (skip_call n) = skip r n

pub perform_all : XpbReader → List Call → Option XpbReader
unfolding perform
perform_all r [] = some r
perform_all r (c ∷ cs) = perform r c >>= λ q. perform_all q cs

of_Safe :
    {A : Type 0} (r : XpbReader) (m : Read A)
    → Safe r m
    → (q : XpbReader) × ((m >>= λ (s, v). some s) ≡ some q) × (q.buf ≡ r.buf) × InBounds q
of_Safe r m (q, a, e, k) = (q, rw e, k.same_buf, rw k.same_buf k.bounded)

-- A Skip by at most 2 ^ 62 bytes, forwards; backwards it may be any number.
abbrev pub IsModest : Call → Type 0
IsModest (skip_call (pos n)) = n ≤ 2 ^ 62
IsModest _ = Unit

skip_lem :
    (r : XpbReader) (n : ℤ)
    → InBounds r
    → length r.buf < 2 ^ 62
    → IsModest (skip_call n)
    → skip r n ≡ some (skip_within r n)
unfolding skip
skip_lem r (negsuc n) h l m = refl
skip_lem r (pos n) h l m = rw (no_wrap (r.cursor + n) (omega arith)) refl
  where
    no_wrap : (k : ℕ) → k < 2 ^ 63 → leb (2 ^ 63) k ≡ false
    no_wrap k lt = ground arith

perform_lem :
    (r : XpbReader) (c : Call)
    → InBounds r
    → length r.buf < 2 ^ 62
    → IsModest c
    → (q : XpbReader) × (perform r c ≡ some q) × (q.buf ≡ r.buf) × InBounds q
unfolding perform
perform_lem r next_call h l m = of_Safe r (next r) (next-Safe r h)
perform_lem r get_call h l m = of_Safe r (get r) (get-Safe r h)
perform_lem r string_call h l m = of_Safe r (get_string r) (get_string-Safe r)
perform_lem r int16_call h l m = of_Safe r (get_int16 r) (get_int16-Safe r)
perform_lem r int32_call h l m = of_Safe r (get_int32 r) (get_int32-Safe r)
perform_lem r int64_call h l m = of_Safe r (get_int64 r) (get_int64-Safe r)
perform_lem r reset_call h l m = (reset r, refl, unfold reset in refl, unfold reset in omega arith)
perform_lem r (skip_call n) h l m =
    let k = skip_within-Kept r n in
    (skip_within r n, skip_lem r n h l m, k.same_buf, rw k.same_buf k.bounded)

perform_all_lem :
    (r : XpbReader) (cs : List Call)
    → InBounds r
    → length r.buf < 2 ^ 62
    → All IsModest cs
    → (q : XpbReader) × (perform_all r cs ≡ some q) × (q.buf ≡ r.buf) × InBounds q
unfolding perform_all
perform_all_lem r [] h l m = (r, refl, refl, h)
perform_all_lem r (c ∷ cs) h l m =
    let (p, e, b, k) = perform_lem r c h l m.0 in
    let (q, d, b', n) = perform_all_lem p cs k (omega (arith, ap length b)) m.1 in
    (q, rw e d, b' ∙ b, n)

-- Whatever the server sent, in a buffer of fewer than 2 ^ 62 bytes, and whatever calls a consumer
-- makes of a new reader, without a Skip by more than 2 ^ 62 bytes among them, no call panics, the
-- buffer stays as it was, and the cursor stays within it.
pub reader_never_panics :
    (buf : List ℕ) (cs : List Call)
    → length buf < 2 ^ 62
    → All IsModest cs
    → (q : XpbReader) × (perform_all (new_reader buf) cs ≡ some q) × (q.buf ≡ buf) × InBounds q
unfolding new_reader
reader_never_panics buf cs l m = perform_all_lem (new_reader buf) cs (omega arith) l m
