-- ===== src/Texts/Lists.antt =====
-- Membership in a list of strings, and what `splitList` lets through.
use firebirdsql_go.Base.{
  ℕ, ◌≡◌, refl, ◌∙◌, ap, ◌==◌, arith, true, inl, inr, List, [], ◌∷◌, ◌++◌, bytes_eq, bytes_eq_iff,
  Bool-cases,
}
use firebirdsql_go.Texts.{contains, split, onto_first}

-- A member of a list is one of its entries.
pub contains-split :
    (ys : List (List ℕ)) (x : List ℕ)
    → contains ys x ≡ true
    → (front : List (List ℕ)) × (back : List (List ℕ)) × (ys ≡ front ++ x ∷ back)
unfolding contains
contains-split [] x h = cc
contains-split (y ∷ ys) x h = elim (Bool-cases (bytes_eq y x)) [
  | inl here ↦ ([], ys, cc ((bytes_eq_iff y x).0 here))
  | inr later ↦
      let (front, back, e) = contains-split ys x (rw later at h) in (y ∷ front, back, rw e)
]

-- Joining the parts with the separator gives the string back.
abbrev pub join : List (List ℕ) → ℕ → List ℕ
join [] sep = []
join (p ∷ []) sep = p
join (p ∷ q ∷ ps) sep = p ++ sep ∷ join (q ∷ ps) sep

join-onto_first :
    (c : ℕ) (ps : List (List ℕ)) (sep : ℕ) → join (onto_first c ps) sep ≡ c ∷ join ps sep
join-onto_first c [] sep = refl
join-onto_first c (p ∷ []) sep = refl
join-onto_first c (p ∷ q ∷ ps) sep = refl

split-cons : (s : List ℕ) (sep : ℕ) → (p : List ℕ) × (ps : List (List ℕ)) × (split s sep ≡ p ∷ ps)
unfolding split
split-cons [] sep = ([], [], refl)
split-cons (c ∷ s) sep = elim (Bool-cases (c == sep)) [
  | inl cut ↦ ([], split s sep, rw cut)
  | inr kept ↦ let (p, ps, e) = split-cons s sep in (c ∷ p, ps, rw (kept, e))
]

pub join-split : (s : List ℕ) (sep : ℕ) → join (split s sep) sep ≡ s
unfolding split
join-split [] sep = refl
join-split (c ∷ s) sep = elim (Bool-cases (c == sep)) [
  | inl cut ↦
      let (p, ps, e) = split-cons s sep in
      rw cut (rw (e, join) (ground (arith, rw e at (join-split s sep))))
  | inr kept ↦ rw kept (join-onto_first c (split s sep) sep ∙ ap (λ t. c ∷ t) (join-split s sep))
]
