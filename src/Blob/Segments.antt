-- ===== src/Blob/Segments.antt =====
-- The loop over segments ends, and gives the concatenation of what a server framed.
use firebirdsql_go.Base.{
  ℕ, zero, suc, ◌+◌, ◌^◌, ◌≤◌, ◌<◌, ◌≡◌, sym, ap, ◌∙◌, arith, false, List, [], ◌∷◌, ◌++◌, length,
  length-append, length-drop, take-append, drop-append, ltb, All, append_assoc, append-nil, inl,
  inr, Bool-cases,
}
use firebirdsql_go.Bytes.{bytes_to_uint16, byte_at, le16}
use firebirdsql_go.Bytes.RoundTrip.{le16_bytes}
use firebirdsql_go.Blob.{Decoded, done, header, segment, panic, stuck, append_segments}

-- A segment as the server frames it.
abbrev pub frame : List ℕ → List ℕ
frame s = byte_at (length s) 0 ∷ byte_at (length s) 8 ∷ s

abbrev pub frames : List (List ℕ) → List ℕ
frames [] = []
frames (s ∷ ss) = frame s ++ frames ss

abbrev pub concat : List (List ℕ) → List ℕ
concat [] = []
concat (s ∷ ss) = s ++ concat ss

abbrev pub IsSegment : List ℕ → Type 0
IsSegment s = length s < 2 ^ 16

-- One framed segment in front of anything is taken off.
append_segments_step :
    (fuel : ℕ) (s rest blob : List ℕ)
    → IsSegment s
    → append_segments (suc fuel) (frame s ++ rest) blob ≡ append_segments fuel rest (blob ++ s)
unfolding append_segments bytes_to_uint16
append_segments_step fuel s rest blob h =
    rw (le16_bytes (length s) h, two (length s), drop-append s rest, take-append s rest)
      (ground (arith, length-append s rest))
  where
    two : (n : ℕ) → n + 2 ≡ suc (suc n)
    two n = omega arith

-- However a server cuts a BLOB into segments of fewer than 65536 bytes, the loop gives their
-- concatenation behind what it had.
pub append_segments-frames :
    (fuel : ℕ) (ss : List (List ℕ)) (blob : List ℕ)
    → All IsSegment ss
    → length (frames ss) ≤ fuel
    → append_segments fuel (frames ss) blob ≡ done (blob ++ concat ss)
append_segments-frames fuel [] blob h k = unfold append_segments in ap done (sym (append-nil blob))
append_segments-frames zero (s ∷ ss) blob h k = absurd (omega arith)
append_segments-frames (suc fuel) (s ∷ ss) blob h k =
    append_segments_step fuel s (frames ss) blob h.0
    ∙ append_segments-frames fuel ss (blob ++ s) h.1 (omega (arith, length-append s (frames ss)))
    ∙ ap done (append_assoc blob s (concat ss))

-- A run that ends by one of the code's own returns.
abbrev pub Ends : Decoded → Type 0
Ends (done blob) = Unit {0}
Ends header = Unit {0}
Ends segment = Unit {0}
Ends panic = ⊥
Ends stuck = ⊥

-- On every response the loop ends, without a panic, whatever lengths the server claims.
pub append_segments-Ends :
    (fuel : ℕ) (buf blob : List ℕ) → length buf ≤ fuel → Ends (append_segments fuel buf blob)
unfolding append_segments bytes_to_uint16
append_segments-Ends fuel [] blob h = tt
append_segments-Ends zero (b ∷ bs) blob h = absurd (omega arith)
append_segments-Ends (suc fuel) (b ∷ []) blob h = tt
append_segments-Ends (suc fuel) (b ∷ c ∷ bs) blob h =
    elim (Bool-cases (ltb (length (b ∷ c ∷ bs)) (le16 b c + 2))) [
      | inl over ↦ rw (at_least_two (length bs), over) tt
      | inr fits ↦
          rw (at_least_two (length bs), fits)
            (append_segments-Ends fuel _ _ (omega (arith, length-drop (le16 b c + 2) (b ∷ c ∷ bs))))
    ]
  where
    at_least_two : (n : ℕ) → ltb (suc (suc n)) 2 ≡ false
    at_least_two n = ground arith
