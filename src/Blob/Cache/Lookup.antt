-- ===== src/Blob/Cache/Lookup.antt =====
-- What was added to the cache is handed out, once the cache took it.
use firebirdsql_go.Base.{
  ℕ, ◌+◌, ◌-◌, ◌≡◌, refl, arith, ℤ, pos, negsuc, Bool, true, some, List, [], ◌∷◌, length, ltb,
  if_cases, option_cases, Bool-cases, inl, inr,
}
use firebirdsql_go.Blob.Cache.{
  int_eq, find, put, Blobs, InlineBlobCache, cap, or_empty, add, get_and_remove,
}

int_eq_refl : (k : ℤ) → int_eq k k ≡ true
int_eq_refl (pos n) = ground arith
int_eq_refl (negsuc n) = ground arith

find-put : {A : Type 0} (k : ℤ) (a : A) (m : List (ℤ × A)) → find k (put k a m) ≡ some a
unfolding find put
find-put k a [] = rw (int_eq_refl k) refl
find-put k a ((j, b) ∷ m) = elim (Bool-cases (int_eq j k)) [
  | inl e ↦ rw (e, int_eq_refl k) refl
  | inr e ↦ rw e (rw e (find-put k a m))
]

-- Its value and the size after it.
abbrev HandsOut : ℤ → ℤ → List ℕ → ℕ → InlineBlobCache → Type 0
HandsOut tx id blob size c =
    ((get_and_remove c tx id).1 ≡ some blob) × ((get_and_remove c tx id).0.size ≡ size)

hands_out :
    (c : InlineBlobCache) (tx id : ℤ) (blob : List ℕ) (bs : Blobs) {m size : ℕ}
    → cap c.max_size ≡ some m
    → find tx c.by_tx ≡ some bs
    → find id bs ≡ some blob
    → c.size - length blob ≡ size
    → HandsOut tx id blob size c
unfolding get_and_remove
hands_out c tx id blob bs e f g h = rw (e, f, g, get_and_remove) (refl, h)

-- Data that the cache took is what the next call for it gives, and the size is then as before.
get_and_remove-add :
    (c : InlineBlobCache) (tx id : ℤ) (blob : List ℕ)
    → (add c tx id blob).1 ≡ true
    → let r = get_and_remove (add c tx id blob).0 tx id in (r.1 ≡ some blob) × (r.0.size ≡ c.size)
unfolding add
get_and_remove-add c tx id blob =
    let P : InlineBlobCache × Bool → Type 0 = λ r. r.1 ≡ true → HandsOut tx id blob c.size r.0 in
    option_cases P (cap c.max_size) (λ e t. cc)
      λ m e.
        if_cases P (ltb m (c.size + length blob)) (λ over t. cc)
          λ fits.
            option_cases P (find id (or_empty (find tx c.by_tx)))
              (λ new t.
                let bs = or_empty (find tx c.by_tx) in
                hands_out _ tx id blob (put id blob bs) e (find-put tx (put id blob bs) c.by_tx)
                  (find-put id blob bs) (omega arith))
              (λ old found t. cc)
