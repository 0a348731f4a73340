-- ===== src/Policy/Records.antt =====
-- What `_guess_wire_crypt` reads of the server's offer.
use firebirdsql_go.Base.{
  ℕ, zero, suc, ◌≤◌, ◌<◌, ◌≡◌, ◌≢◌, sym, ap, ◌∙◌, leb, ◌==◌, append_assoc, take-append-drop, refl,
  arith, ◌⊎◌, inl, inr, true, false, some, List, [], ◌∷◌, ◌++◌, length, length-take, length-drop,
  take, drop, ltb, All, Bool-cases,
}
use firebirdsql_go.Texts.{contains, split}
use firebirdsql_go.Policy.{Offer, note_record, scan_offer}

-- Records as a server writes them: type, length and value.
abbrev pub records_bytes : List (ℕ × List ℕ) → List ℕ
records_bytes [] = []
records_bytes ((t, v) ∷ rs) = t ∷ length v ∷ (v ++ records_bytes rs)

-- A rest that is no complete record.
abbrev pub IsCut : List ℕ → Type 0
IsCut [] = Unit
IsCut (t ∷ []) = Unit
IsCut (t ∷ ln ∷ rest) = length rest < ln

abbrev pub note_all : List (ℕ × List ℕ) → Offer → Offer
note_all [] o = o
note_all ((t, v) ∷ rs) o = note_all rs (note_record t v o)

rejoin :
    (t ln : ℕ) (rest : List ℕ) (rs : List (ℕ × List ℕ)) (cut : List ℕ)
    → ln ≤ length rest
    → drop ln rest ≡ records_bytes rs ++ cut
    → t ∷ ln ∷ rest ≡ records_bytes ((t, take ln rest) ∷ rs) ++ cut
rejoin t ln rest rs cut fits e =
    let value : rest ≡ (take ln rest ++ records_bytes rs) ++ cut =
      sym (take-append-drop ln rest)
      ∙ ap (λ d. take ln rest ++ d) e
      ∙ sym (append_assoc (take ln rest) (records_bytes rs) cut) in
    let taken : ln ≡ length (take ln rest) = ground (arith, length-take ln rest) in
    ap (λ r. t ∷ ln ∷ r) value ∙ ap (λ n. t ∷ n ∷ ((take ln rest ++ records_bytes rs) ++ cut)) taken

-- On every buffer the scan ends within its fuel and without a panic: it has read the complete
-- records in front of a rest that is cut short.
pub scan_offer_lem :
    (fuel : ℕ) (buf : List ℕ) (o : Offer)
    → length buf ≤ fuel
    → (rs : List (ℕ × List ℕ)) × (cut : List ℕ) × (buf ≡ records_bytes rs ++ cut)
      × IsCut cut
      × (scan_offer fuel buf o ≡ some (note_all rs o))
unfolding scan_offer
scan_offer_lem fuel [] o h = ([], [], refl, tt, refl)
scan_offer_lem zero (t ∷ rest) o h = absurd (omega arith)
scan_offer_lem (suc fuel) (t ∷ []) o h = ([], t ∷ [], refl, tt, refl)
scan_offer_lem (suc fuel) (t ∷ ln ∷ rest) o h = elim (Bool-cases (ltb (length rest) ln)) [
  | inl cut ↦ ([], t ∷ ln ∷ rest, refl, longer (length rest) ln cut, rw cut)
  | inr whole ↦
      let fits = within (length rest) ln whole in
      let (rs, cut, e, c, s) =
        scan_offer_lem fuel (drop ln rest) (note_record t (take ln rest) o)
          (omega (arith, length-drop ln rest)) in
      (
        (t, take ln rest) ∷ rs,
        cut,
        rejoin t ln rest rs cut fits e,
        c,
        rw (whole, leb_of ln (length rest) fits) s,
      )
]
  where
    longer : (n m : ℕ) → ltb n m ≡ true → n < m
    longer n m h = ground arith

    within : (n m : ℕ) → ltb n m ≡ false → m ≤ n
    within n m h = ground arith

    leb_of : (n m : ℕ) → n ≤ m → leb n m ≡ true
    leb_of n m h = ground arith

-- A list has an element with the property.
abbrev pub Has : (List ℕ → Type 0) → List (List ℕ) → Type 0
Has P [] = ⊥
Has P (n ∷ ns) = P n ⊎ Has P ns

-- The server names a plugin: it stands between the spaces of the last record of type 1.
abbrev pub Named : List (ℕ × List ℕ) → List ℕ → Type 0
Named [] name = ⊥
Named ((t, v) ∷ rs) name =
    ((t ≡ 1) × (contains (split v 32) name ≡ true) × All (λ r. r.0 ≢ 1) rs) ⊎ Named rs name

-- A record of type 3 has the property.
abbrev pub HasNonce : (List ℕ → Type 0) → List (ℕ × List ℕ) → Type 0
HasNonce P [] = ⊥
HasNonce P ((t, v) ∷ rs) = ((t ≡ 3) × P v) ⊎ HasNonce P rs

is_same : (n m : ℕ) → (n == m) ≡ true → n ≡ m
is_same n m h = ground arith

is_other : (n m : ℕ) → (n == m) ≡ false → n ≢ m
is_other n m h = ground arith

pub plugins_from :
    (rs : List (ℕ × List ℕ)) (o : Offer) (name : List ℕ)
    → contains (note_all rs o).plugins name ≡ true
    → ((contains o.plugins name ≡ true) × All (λ r. r.0 ≢ 1) rs) ⊎ Named rs name
plugins_from [] o name h = inl (h, tt)
plugins_from ((t, v) ∷ rs) o name h = elim (plugins_from rs (note_record t v o) name h) [
  | inr named ↦ inr (inr named)
  | inl (there, others) ↦ elim (Bool-cases (t == 1)) [
    | inl one ↦ inr (inl (is_same t 1 one, rw one at there, others))
    | inr not_one ↦ elim (Bool-cases (t == 3)) [
      | inl three ↦ inl (rw (not_one, three) at there, (is_other t 1 not_one, others))
      | inr not_three ↦ inl (rw (not_one, not_three) at there, (is_other t 1 not_one, others))
    ]
  ]
]

Has-append :
    (P : List ℕ → Type 0) (ns : List (List ℕ)) (v : List ℕ) → Has P (ns ++ v ∷ []) → Has P ns ⊎ P v
Has-append P [] v (inl h) = inr h
Has-append P [] v (inr h) = absurd h
Has-append P (n ∷ ns) v (inl h) = inl (inl h)
Has-append P (n ∷ ns) v (inr h) = elim (Has-append P ns v h) [
  | inl there ↦ inl (inr there)
  | inr here ↦ inr here
]

pub nonces_from :
    (P : List ℕ → Type 0) (rs : List (ℕ × List ℕ)) (o : Offer)
    → Has P (note_all rs o).nonces
    → Has P o.nonces ⊎ HasNonce P rs
nonces_from P [] o h = inl h
nonces_from P ((t, v) ∷ rs) o h = elim (nonces_from P rs (note_record t v o) h) [
  | inr sent ↦ inr (inr sent)
  | inl there ↦ elim (Bool-cases (t == 1)) [
    | inl one ↦ inl (rw one at there)
    | inr not_one ↦ elim (Bool-cases (t == 3)) [
      | inl three ↦ elim (Has-append P o.nonces v (rw (not_one, three) at there)) [
        | inl before ↦ inl before
        | inr here ↦ inr (inl (is_same t 3 three, here))
      ]
      | inr not_three ↦ inl (rw (not_one, not_three) at there)
    ]
  ]
]
