-- ===== src/Connection/Sound.antt =====
-- The pointers of a connection: what its set and its current transaction may be.
use firebirdsql_go.Base.{
  ℕ, zero, suc, ◌<◌, ◌≡◌, refl, sym, ap, ◌∙◌, subst, ◌⊎◌, inl, inr, arith, Bool, true, false,
  Option, some_injective, some, List, [], ◌∷◌, ◌++◌, length, length-append, get_elem?, ◌==◌,
  if◌then◌else◌,
}
use firebirdsql_go.Connection.{Tx}
use firebirdsql_go.Connection.Transactions.{modify, insert}

abbrev pub contains : ℕ → List ℕ → Bool
contains i [] = false
contains i (j ∷ js) = if i == j then true else contains i js

pub insert-contains : (i : ℕ) (js : List ℕ) → contains i (insert i js) ≡ true
insert-contains i [] = ground arith
insert-contains i (j ∷ js) = ground (arith, insert-contains i js)

pub insert_keeps : (i j : ℕ) (js : List ℕ) → contains j js ≡ true → contains j (insert i js) ≡ true
insert_keeps i j [] h = cc h
insert_keeps i j (k ∷ js) h = ground (arith, insert_keeps i j js)

pub length-modify : (ts : List Tx) (i : ℕ) (f : Tx → Tx) → length (modify ts i f) ≡ length ts
unfolding modify
length-modify [] i f = refl
length-modify (t ∷ ts) zero f = refl
length-modify (t ∷ ts) (suc i) f = ap suc (length-modify ts i f)

-- What is at a place is what was there, but for the change.
pub modify_cases :
    (ts : List Tx) (i : ℕ) (f : Tx → Tx) (j : ℕ) (t : Tx)
    → get_elem? (modify ts i f) j ≡ some t
    → ((s : Tx) × (i ≡ j) × (get_elem? ts j ≡ some s) × (f s ≡ t)) ⊎ (get_elem? ts j ≡ some t)
unfolding modify
modify_cases [] i f j t h = inr h
modify_cases (s ∷ ts) zero f zero t h = inl (s, refl, refl, some_injective h)
modify_cases (s ∷ ts) zero f (suc j) t h = inr h
modify_cases (s ∷ ts) (suc i) f zero t h = inr h
modify_cases (s ∷ ts) (suc i) f (suc j) t h = elim (modify_cases ts i f j t h) [
  | inl (u, e, g, k) ↦ inl (u, ap suc e, g, k)
  | inr g ↦ inr g
]

-- The current transaction and the keys of the set are pointers to transactions, and each
-- transaction that does not have to begin is in the set.
pub record Sound (txs : List Tx) (tx : Option ℕ) (keys : List ℕ) : Type 0 where
  pub current : (i : ℕ) → tx ≡ some i → i < length txs
  pub known : (i : ℕ) → contains i keys ≡ true → i < length txs
  pub running :
      (i : ℕ) (t : Tx) → get_elem? txs i ≡ some t → t.need_begin ≡ false → contains i keys ≡ true

-- A change keeps the invariant if what it makes of a transaction is still in the set unless it has
-- to begin.
pub update-Sound :
    (ts : List Tx) (tx : Option ℕ) (keys : List ℕ) (i : ℕ) (f : Tx → Tx)
    → Sound ts tx keys
    → ((t : Tx) → get_elem? ts i ≡ some t → (f t).need_begin ≡ false → contains i keys ≡ true)
    → Sound (modify ts i f) tx keys
update-Sound ts tx keys i f s changed = record {
  current = λ j e. omega (arith, length-modify ts i f, s.current j e);
  known = λ j e. omega (arith, length-modify ts i f, s.known j e);
  running = λ j t at idle. elim (modify_cases ts i f j t at) [
    | inl (u, e, was, now) ↦
        subst (λ k. contains k keys ≡ true) e
          (changed u (subst (λ k. get_elem? ts k ≡ some u) (sym e) was)
            (ap (λ v. v.need_begin) now ∙ idle))
    | inr was ↦ s.running j t was idle
  ];
}

pub insert_bound :
    (i j n : ℕ) (keys : List ℕ)
    → i < n
    → (contains j keys ≡ true → j < n)
    → contains j (insert i keys) ≡ true
    → j < n
insert_bound i j n [] h k e = ground arith
insert_bound i j n (l ∷ keys) h k e = ground (arith, insert_bound i j n keys h)

pub insert-Sound :
    (ts : List Tx) (tx : Option ℕ) (keys : List ℕ) (i : ℕ)
    → Sound ts tx keys
    → i < length ts
    → Sound ts tx (insert i keys)
insert-Sound ts tx keys i s h = record {
  current = s.current;
  known = λ j. insert_bound i j (length ts) keys h (s.known j);
  running = λ j t at idle. insert_keeps i j keys (s.running j t at idle);
}

pub in_bounds : (ts : List Tx) (i : ℕ) (t : Tx) → get_elem? ts i ≡ some t → i < length ts
in_bounds [] i t e = cc e
in_bounds (s ∷ ts) zero t e = omega arith
in_bounds (s ∷ ts) (suc i) t e = omega (arith, in_bounds ts i t e)

pub append_cases :
    (ts : List Tx) (new : Tx) (j : ℕ) (t : Tx)
    → get_elem? (ts ++ new ∷ []) j ≡ some t
    → (length ts ≡ j) ⊎ (get_elem? ts j ≡ some t)
append_cases [] new zero t e = inl refl
append_cases [] new (suc j) t e = cc e
append_cases (s ∷ ts) new zero t e = inr e
append_cases (s ∷ ts) new (suc j) t e = elim (append_cases ts new j t e) [
  | inl same ↦ inl (ap suc same)
  | inr was ↦ inr was
]

-- With a new transaction, the set that has it too is sound.
pub append-Sound :
    (ts : List Tx) (tx : Option ℕ) (keys : List ℕ) (new : Tx)
    → Sound ts tx keys
    → Sound (ts ++ new ∷ []) tx (insert (length ts) keys)
append-Sound ts tx keys new s = record {
  current = λ i e. omega (arith, length-append ts (new ∷ []), s.current i e);
  known = λ i e.
      insert_bound (length ts) i (length (ts ++ new ∷ [])) keys
        (omega (arith, length-append ts (new ∷ [])))
        (λ h. omega (arith, length-append ts (new ∷ []), s.known i h)) e;
  running = λ i t at idle. elim (append_cases ts new i t at) [
    | inl same ↦
        subst (λ k. contains k (insert (length ts) keys) ≡ true) same
          (insert-contains (length ts) keys)
    | inr was ↦ insert_keeps (length ts) i keys (s.running i t was idle)
  ];
}
