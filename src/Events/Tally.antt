-- ===== src/Events/Tally.antt =====
-- The count of a name after the records of a server, taken one after the other.
use firebirdsql_go.Base.{
  ℕ, ◌≡◌, refl, sym, ◌∙◌, ap, ℤ, pos, ◌-ℤ◌, i32, u32, Bool, true, false, bytes_eq_iff,
  if◌then◌else◌, Option, none, some, List, [], ◌∷◌, Bool-cases, Option-cases, inl, inr, bytes_eq,
}
use firebirdsql_go.Events.{Counts, lookup, put, note_count, zeroed}

abbrev pub note_all : List (List ℕ × ℤ) → Counts → Counts
note_all [] counts = counts
note_all ((name, n) ∷ rs) counts = note_all rs (note_count name n counts)

abbrev pub or_else : Option ℤ → Option ℤ → Option ℤ
or_else none o = o
or_else (some m) o = some m

-- The last number that the server sent for a name.
abbrev pub last_sent : List ℕ → List (List ℕ × ℤ) → Option ℤ
last_sent name [] = none
last_sent name ((k, n) ∷ rs) =
    or_else (last_sent name rs) (if bytes_eq name k then some n else none)

-- The count for a number that was sent: one less, as an int32.
abbrev pub one_less : ℤ → ℤ
one_less n = i32 (u32 (n -ℤ pos 1))

abbrev pub count_or : ℤ → Option ℤ → ℤ
count_or old none = old
count_or old (some n) = one_less n

-- The count of a name that is waited for: that of the last number, and 0 if there is none.
abbrev pub count_sent : List ℕ → List (List ℕ × ℤ) → ℤ
count_sent name rs = count_or (pos 0) (last_sent name rs)

put_here :
    (b : Bool) (v w : ℤ) (r : Option ℤ)
    → (if b then some v else r) ≡ (if b then some v else if b then some w else r)
put_here true v w r = refl
put_here false v w r = refl

other_key :
    (name k l : List ℕ) → bytes_eq k l ≡ false → bytes_eq name l ≡ true → bytes_eq name k ≡ false
other_key name k l other here = elim (Bool-cases (bytes_eq name k)) [
  | inr differs ↦ differs
  | inl same ↦
      let e = (bytes_eq_iff name k).0 same in
      let f = (bytes_eq_iff name l).0 here in cc (other, (bytes_eq_iff k l).1 (sym e ∙ f))
]

lookup-put :
    (name k : List ℕ) (v : ℤ) (counts : Counts)
    → lookup name (put k v counts) ≡ (if bytes_eq name k then some v else lookup name counts)
unfolding lookup put
lookup-put name k v [] = refl
lookup-put name k v ((l, w) ∷ m) = elim (Bool-cases (bytes_eq k l)) [
  | inl same ↦
      rw (same, ap (bytes_eq name) ((bytes_eq_iff k l).0 same))
        (put_here (bytes_eq name l) v w (lookup name m))
  | inr other ↦ rw other (elim (Bool-cases (bytes_eq name l)) [
    | inl here ↦ rw (here, other_key name k l other here) refl
    | inr there ↦ rw there (lookup-put name k v m)
  ])
]

lookup-note_count :
    (name k : List ℕ) (n : ℤ) (counts : Counts) (old : ℤ)
    → lookup name counts ≡ some old
    → lookup name (note_count k n counts) ≡ some (if bytes_eq name k then one_less n else old)
unfolding note_count
lookup-note_count name k n counts old e = elim (Option-cases (lookup k counts)) [
  | inl absent ↦ elim (Bool-cases (bytes_eq name k)) [
    | inl same ↦ cc (ap (λ s. lookup s counts) ((bytes_eq_iff name k).0 same), absent, e)
    | inr other ↦ rw (note_count, absent, other) e
  ]
  | inr (v, there) ↦
      rw (note_count, there)
        (lookup-put name k (one_less n) counts ∙ elim (Bool-cases (bytes_eq name k)) [
          | inl same ↦ rw same refl
          | inr other ↦ rw other e
        ])
]

pub lookup-note_all :
    (name : List ℕ) (rs : List (List ℕ × ℤ)) (counts : Counts) (old : ℤ)
    → lookup name counts ≡ some old
    → lookup name (note_all rs counts) ≡ some (count_or old (last_sent name rs))
lookup-note_all name [] counts old e = e
lookup-note_all name ((k, n) ∷ rs) counts old e =
    lookup-note_all name rs (note_count k n counts) _ (lookup-note_count name k n counts old e)
    ∙ ap some (later (last_sent name rs) (bytes_eq name k))
  where
    later :
        (o : Option ℤ) (b : Bool)
        → count_or (if b then one_less n else old) o
          ≡ count_or old (or_else o (if b then some n else none))
    later none true = refl
    later none false = refl
    later (some m) b = refl

pub absent-note_all :
    (name : List ℕ) (rs : List (List ℕ × ℤ)) (counts : Counts)
    → lookup name counts ≡ none
    → lookup name (note_all rs counts) ≡ none
unfolding note_count
absent-note_all name [] counts e = e
absent-note_all name ((k, n) ∷ rs) counts e =
    absent-note_all name rs (note_count k n counts) (still k n counts e)
  where
    still :
        (k : List ℕ) (n : ℤ) (counts : Counts)
        → lookup name counts ≡ none
        → lookup name (note_count k n counts) ≡ none
    still k n counts e = elim (Option-cases (lookup k counts)) [
      | inl absent ↦ rw (note_count, absent) e
      | inr (v, there) ↦
          rw (note_count, there)
            (lookup-put name k (one_less n) counts ∙ elim (Bool-cases (bytes_eq name k)) [
              | inl same ↦ cc (ap (λ s. lookup s counts) ((bytes_eq_iff name k).0 same), there, e)
              | inr other ↦ rw other e
            ])
    ]

pub lookup-zeroed :
    (name : List ℕ) (counts : Counts)
    → lookup name (zeroed counts)
      ≡ (elim (lookup name counts) [ none ↦ none | some old ↦ some (pos 0) ])
unfolding lookup
lookup-zeroed name [] = refl
lookup-zeroed name ((k, v) ∷ m) = elim (Bool-cases (bytes_eq name k)) [
  | inl same ↦ rw same refl
  | inr other ↦ rw other (lookup-zeroed name m)
]
