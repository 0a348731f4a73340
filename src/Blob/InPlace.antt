-- ===== src/Blob/InPlace.antt =====
-- The decoder that works within its own buffer gives what the loop over a fresh one gives: the bytes
-- that it overwrites are those that it has read.
use firebirdsql_go.Base.{
  ℕ, zero, suc, ◌+◌, ◌-◌, ◌≤◌, ◌<◌, ◌≡◌, refl, sym, ap, ◌∙◌, arith, true, false, List, [], ◌∷◌,
  ◌++◌, length, length-append, length-drop, length-take, take, drop, take-append, ltb, leb, ◌==◌,
  All, append_assoc, append-nil, if◌then◌else◌,
}
use mathlib.Core.Path.{ap₂}
use native.Mathlib.Decide.{dec_le}
use native.Mathlib.Nat.{zero-add, suc-add, sub-zero, suc-sub-suc}
use firebirdsql_go.Bytes.{bytes_to_uint16, le16}
use firebirdsql_go.Blob.{
  done, segment, append_segments, copy_at, compact, decode_inline_segment_buffer,
}
use firebirdsql_go.Blob.Segments.{
  frames, concat, IsSegment, append_segments-frames, Ends, append_segments-Ends,
}

module _ {ℓ} {A : Type ℓ} where
  drop_nil : (m : ℕ) → ◌≡◌ {A = List A} (drop m []) []
  drop_nil zero = refl
  drop_nil (suc m) = refl

  drop-drop : (n m : ℕ) (xs : List A) → drop m (drop n xs) ≡ drop (n + m) xs
  drop-drop zero m xs = rw (zero-add m)
  drop-drop (suc n) m [] = rw suc-add (drop_nil m)
  drop-drop (suc n) m (x ∷ xs) = rw (suc-add n m) (drop-drop n m xs)

  take_all : (xs : List A) → take (length xs) xs ≡ xs
  take_all [] = refl
  take_all (x ∷ xs) = ap (λ t. x ∷ t) (take_all xs)

  -- In a list that begins with `xs`, the part from `n` on.
  drop-append_later :
      (xs ys : List A) (n : ℕ) → length xs ≤ n → drop n (xs ++ ys) ≡ drop (n - length xs) ys
  drop-append_later [] ys n h = rw sub-zero
  drop-append_later (x ∷ xs) ys zero h = elim h [ ]
  drop-append_later (x ∷ xs) ys (suc n) h = rw suc-sub-suc (drop-append_later xs ys n (omega arith))

-- The bytes of a piece that is moved from `cursor` down to `out`.
module _ (buf : List ℕ) (cursor out ln : ℕ) (behind : out ≤ cursor)
    (fits : cursor + ln ≤ length buf) where
  abbrev piece : List ℕ
  piece = take ln (drop cursor buf)

  length-piece : length piece ≡ ln
  length-piece = omega (arith, length-take ln (drop cursor buf), length-drop cursor buf)

  abbrev front : List ℕ
  front = take out buf ++ piece

  length-front : length front ≡ out + ln
  length-front =
      omega (arith, length-append (take out buf) piece, length-take out buf, length-piece)

  copy_at-front : copy_at buf out piece ≡ front ++ drop (out + ln) buf
  copy_at-front = rw length-piece (sym (append_assoc (take out buf) piece (drop (out + ln) buf)))

  length-copy_at : length (copy_at buf out piece) ≡ length buf
  length-copy_at = rw copy_at-front (
      omega (
        arith,
        length-append front (drop (out + ln) buf),
        length-front,
        length-drop (out + ln) buf,
      ))

  -- What is still to be read is untouched.
  drop-copy_at : drop (cursor + ln) (copy_at buf out piece) ≡ drop (cursor + ln) buf
  drop-copy_at =
      ap (drop (cursor + ln)) copy_at-front
      ∙ drop-append_later front _ (cursor + ln) (omega (arith, length-front))
      ∙ drop-drop (out + ln) (cursor + ln - length front) buf
      ∙ ap (λ n. drop n buf) (omega (arith, length-front))

  take-copy_at : take (out + ln) (copy_at buf out piece) ≡ front
  take-copy_at =
      ap (take (out + ln)) copy_at-front
      ∙ ap (λ n. take n (front ++ drop (out + ln) buf)) (sym length-front)
      ∙ take-append front (drop (out + ln) buf)

abbrev Agrees : ℕ → Type 0
Agrees fuel =
    (buf : List ℕ) (cursor out : ℕ)
    → out ≤ cursor
    → cursor ≤ length buf
    → compact fuel buf cursor out ≡ append_segments fuel (drop cursor buf) (take out buf)

at_end : (a b : ℕ) → a ≤ b → leb a b ≡ true
at_end a b h = ground arith

before_end : (a b : ℕ) → b < a → leb a b ≡ false
before_end a b h = ground arith

not_zero : (n : ℕ) → (suc n == 0) ≡ false
not_zero n = ground arith

room : (a b : ℕ) → b ≤ a → ltb a b ≡ false
room a b h = ground arith

no_room : (a b : ℕ) → a < b → ltb a b ≡ true
no_room a b h = ground arith

-- One round on a segment that the buffer holds.
Agrees-moved :
    (fuel : ℕ) (buf : List ℕ) (cursor out ln : ℕ)
    → Agrees fuel
    → out ≤ cursor
    → cursor + ln ≤ length buf
    → compact fuel (copy_at buf out (take ln (drop cursor buf))) (cursor + ln) (out + ln)
      ≡ append_segments fuel (drop ln (drop cursor buf)) (take out buf ++ take ln (drop cursor buf))
Agrees-moved fuel buf cursor out ln ih h k =
    ih (copy_at buf out (take ln (drop cursor buf))) (cursor + ln) (out + ln) (omega arith)
      (rw (length-copy_at buf cursor out ln h k) k)
    ∙ ap₂ (append_segments fuel)
        (drop-copy_at buf cursor out ln h k ∙ sym (drop-drop cursor ln buf))
        (take-copy_at buf cursor out ln h k)

Agrees-skipped :
    (fuel : ℕ) (buf : List ℕ) (cursor out : ℕ)
    → Agrees fuel
    → out ≤ cursor
    → cursor ≤ length buf
    → compact fuel buf cursor out ≡ append_segments fuel (drop cursor buf) (take out buf ++ [])
Agrees-skipped fuel buf cursor out ih h k = rw append-nil (ih buf cursor out h k)

-- Both take, skip or refuse a segment of the claimed length `ln`.
Agrees-round :
    (fuel : ℕ) (buf : List ℕ) (cursor out ln : ℕ) (s : List ℕ)
    → Agrees fuel
    → drop cursor buf ≡ s
    → length buf ≡ cursor + length s
    → out ≤ cursor
    → (if ltb (length buf) (cursor + ln)
        then segment
        else if ln == 0
        then compact fuel buf cursor out
        else compact fuel (copy_at buf out (take ln (drop cursor buf))) (cursor + ln) (out + ln))
      ≡ (if ltb (suc (suc (length s))) (suc (suc ln))
          then segment
          else append_segments fuel (drop ln s) (take out buf ++ take ln s))
Agrees-round fuel buf cursor out ln s ih e n h = elim (dec_le ln (length s)) [
  | no over ↦ rw (
    no_room (length buf) (cursor + ln) (omega arith),
    no_room (suc (suc (length s))) (suc (suc ln)) (omega arith),
  )
  | yes fits ↦
      rw
        (
          room (length buf) (cursor + ln) (omega arith),
          room (suc (suc (length s))) (suc (suc ln)) (omega arith),
          ← e,
        )
        (by_length ln (omega arith))
]
  where
    by_length :
        (ln : ℕ)
        → cursor + ln ≤ length buf
        → (if ln == 0
            then compact fuel buf cursor out
            else compact fuel
                (copy_at buf out (take ln (drop cursor buf)))
                (cursor + ln)
                (out + ln))
          ≡ append_segments fuel
              (drop ln (drop cursor buf))
              (take out buf ++ take ln (drop cursor buf))
    by_length zero k = Agrees-skipped fuel buf cursor out ih h (omega arith)
    by_length (suc ln) k = rw (not_zero ln) (Agrees-moved fuel buf cursor out (suc ln) ih h k)

Agrees-step :
    (fuel : ℕ) (buf : List ℕ) (cursor out : ℕ) (s : List ℕ)
    → Agrees fuel
    → drop cursor buf ≡ s
    → length buf ≡ cursor + length s
    → out ≤ cursor
    → compact (suc fuel) buf cursor out ≡ append_segments (suc fuel) s (take out buf)
unfolding compact append_segments bytes_to_uint16
Agrees-step fuel buf cursor out [] ih e n h = rw (at_end (length buf) cursor (omega arith))
Agrees-step fuel buf cursor out (b ∷ []) ih e n h =
    rw (
      before_end (length buf) cursor (omega arith),
      no_room (length buf) (cursor + 2) (omega arith),
    )
Agrees-step fuel buf cursor out (b ∷ c ∷ s) ih e n h =
    let behind : drop (cursor + 2) buf ≡ s = sym (drop-drop cursor 2 buf) ∙ ap (drop 2) e in
    rw
      (
        before_end (length buf) cursor (omega arith),
        room (length buf) (cursor + 2) (omega arith),
        e,
        room (length (b ∷ c ∷ s)) 2 (omega arith),
        two (le16 b c),
      )
      (Agrees-round fuel buf (cursor + 2) out (le16 b c) s ih behind (omega arith) (omega arith))
  where
    two : (n : ℕ) → n + 2 ≡ suc (suc n)
    two n = omega arith

-- From any point of the run: what `compact` makes of the buffer is what the loop makes of the rest of
-- the buffer, behind the bytes that are in place.
pub compact-append_segments :
    (fuel : ℕ) (buf : List ℕ) (cursor out : ℕ)
    → out ≤ cursor
    → cursor ≤ length buf
    → compact fuel buf cursor out ≡ append_segments fuel (drop cursor buf) (take out buf)
compact-append_segments zero buf cursor out h k =
    no_fuel (drop cursor buf) (omega (arith, length-drop cursor buf))
  where
    no_fuel :
        (s : List ℕ)
        → length buf ≡ cursor + length s
        → compact zero buf cursor out ≡ append_segments zero s (take out buf)
    no_fuel [] n = unfold compact append_segments in rw (at_end (length buf) cursor (omega arith))
    no_fuel (b ∷ s) n =
        unfold compact append_segments in rw (before_end (length buf) cursor (omega arith))
compact-append_segments (suc fuel) buf cursor out h k =
    Agrees-step fuel buf cursor out (drop cursor buf) (compact-append_segments fuel) refl
      (omega (arith, length-drop cursor buf)) h

-- The decoder that works in place gives, on every buffer, what the loop of `getBlobSegments` gives
-- on it.
pub decode_inline-append_segments :
    (buf : List ℕ) → decode_inline_segment_buffer buf ≡ append_segments (length buf) buf []
unfolding decode_inline_segment_buffer append_segments
decode_inline-append_segments [] = refl
decode_inline-append_segments (b ∷ bs) =
    rw (not_zero (length bs))
      (compact-append_segments (length (b ∷ bs)) (b ∷ bs) 0 0 (omega arith) (omega arith))

-- On every buffer it ends by a return of its own, without a panic.
pub decode_inline-Ends : (buf : List ℕ) → Ends (decode_inline_segment_buffer buf)
decode_inline-Ends buf =
    rw (decode_inline-append_segments buf) (append_segments-Ends (length buf) buf [] (omega arith))

-- Of segments of fewer than 65536 bytes that a server framed it gives the concatenation.
pub decode_inline-frames :
    (ss : List (List ℕ))
    → All IsSegment ss
    → decode_inline_segment_buffer (frames ss) ≡ done (concat ss)
decode_inline-frames ss h =
    decode_inline-append_segments (frames ss)
    ∙ append_segments-frames (length (frames ss)) ss [] h (omega arith)
