-- ===== src/Blob/Cache/Accounting.antt =====
-- The cache's size is the number of bytes that it holds, and never over the cap.
use firebirdsql_go.Base.{
  ℕ, zero, suc, ◌+◌, ◌-◌, ◌≤◌, ◌≡◌, refl, sym, subst, ap, ◌∙◌, arith, ℤ, pos, negsuc, Bool, Option,
  none, some, List, [], ◌∷◌, length, ltb, ◌==◌, if◌then◌else◌, if_cases, option_cases, Bool-cases,
  inl, inr,
}
use firebirdsql_go.Blob.Cache.{
  int_eq, find, put, erase, total, Blobs, InlineBlobCache, cap, new_inline_blob_cache, or_empty,
  add, get_and_remove, clear_tx, clear_all,
}

module _ {A : Type 0} (weight : A → ℕ) where
  abbrev counted : Option A → ℕ
  counted none = 0
  counted (some a) = weight a

  total-put :
      (k : ℤ) (a : A) (m : List (ℤ × A))
      → total weight (put k a m) + counted (find k m) ≡ total weight m + weight a
  unfolding find put
  total-put k a [] = omega arith
  total-put k a ((j, b) ∷ m) = elim (Bool-cases (int_eq j k)) [
    | inl e ↦ rw e (omega arith)
    | inr e ↦ rw e (omega (arith, total-put k a m))
  ]

  total-erase :
      (k : ℤ) (m : List (ℤ × A)) → total weight (erase k m) + counted (find k m) ≡ total weight m
  unfolding find erase
  total-erase k [] = omega arith
  total-erase k ((j, b) ∷ m) = elim (Bool-cases (int_eq j k)) [
    | inl e ↦ rw e (omega arith)
    | inr e ↦ rw e (omega (arith, total-erase k m))
  ]

abbrev pub held : InlineBlobCache → ℕ
held c = total (total length) c.by_tx

abbrev pub UnderCap : Option ℕ → ℕ → Type 0
UnderCap none n = n ≡ 0
UnderCap (some m) n = n ≤ m

-- The size is what is held, and within the cap; a cache without a cap is empty.
pub record Accounted (o : Option ℕ) (c : InlineBlobCache) : Type 0 where
  pub same_cap : cap c.max_size ≡ o
  pub exact : c.size ≡ held c
  pub under : UnderCap o c.size

pub new_inline_blob_cache-Accounted : (n : ℤ) → Accounted (cap n) (new_inline_blob_cache n)
unfolding new_inline_blob_cache
new_inline_blob_cache-Accounted (pos zero) = record { same_cap = refl; exact = refl; under = refl }
new_inline_blob_cache-Accounted (pos (suc n)) = record {
  same_cap = refl;
  exact = refl;
  under = omega arith;
}
new_inline_blob_cache-Accounted (negsuc n) = record { same_cap = refl; exact = refl; under = refl }

counted_empty : (o : Option Blobs) → counted (total length) o ≡ total length (or_empty o)
counted_empty none = refl
counted_empty (some bs) = refl

-- In the new map the transaction has one blob more.
held-put :
    (tx id : ℤ) (blob : List ℕ) (m : List (ℤ × Blobs))
    → find id (or_empty (find tx m)) ≡ none
    → total (total length) (put tx (put id blob (or_empty (find tx m))) m)
      ≡ total (total length) m + length blob
held-put tx id blob m new =
    let bs = or_empty (find tx m) in
    omega (
      arith,
      total-put (total length) tx (put id blob bs) m,
      counted_empty (find tx m),
      total-put length id blob bs,
      ap (counted length) new,
    )

pub add-Accounted :
    {o : Option ℕ} (c : InlineBlobCache) (tx id : ℤ) (blob : List ℕ)
    → Accounted o c
    → Accounted o (add c tx id blob).0
unfolding add
add-Accounted {o = o} c tx id blob v =
    let P : InlineBlobCache × Bool → Type 0 = λ r. Accounted o r.0 in
    option_cases P (cap c.max_size) (λ e. v)
      λ m e.
        if_cases P (ltb m (c.size + length blob)) (λ over. v)
          λ fits.
            option_cases P (find id (or_empty (find tx c.by_tx)))
              (λ new. record {
                same_cap = v.same_cap;
                exact = omega (arith, v.exact, held-put tx id blob c.by_tx new);
                under =
                    subst (λ o. UnderCap o (c.size + length blob)) (sym e ∙ v.same_cap)
                      (ground arith);
              })
              (λ old found. v)

no_blobs : (bs : Blobs) → length bs ≡ 0 → total length bs ≡ 0
no_blobs [] e = refl
no_blobs (b ∷ bs) e = absurd (omega arith)

shrunk : (o : Option ℕ) (n k : ℕ) → UnderCap o n → UnderCap o (n - k)
shrunk none n k h = omega arith
shrunk (some m) n k h = omega arith

under_zero : (o : Option ℕ) → UnderCap o 0
under_zero none = refl
under_zero (some m) = omega arith

-- Removing the last blob of a transaction removes its map.
held-erase :
    (tx id : ℤ) (blob : List ℕ) (bs : Blobs) (m : List (ℤ × Blobs))
    → find tx m ≡ some bs
    → find id bs ≡ some blob
    → total
          (total length)
          (if length (erase id bs) == 0 then erase tx m else put tx (erase id bs) m)
        + length blob
      ≡ total (total length) m
held-erase tx id blob bs m e k =
    if_cases (λ r. total (total length) r + length blob ≡ total (total length) m)
      (length (erase id bs) == 0)
      (λ last. omega (
        arith,
        total-erase (total length) tx m,
        ap (counted (total length)) e,
        total-erase length id bs,
        ap (counted length) k,
        no_blobs (erase id bs) (ground arith),
      ))
      (λ more. omega (
        arith,
        total-put (total length) tx (erase id bs) m,
        ap (counted (total length)) e,
        total-erase length id bs,
        ap (counted length) k,
      ))

get_and_remove-Accounted :
    {o : Option ℕ} (c : InlineBlobCache) (tx id : ℤ)
    → Accounted o c
    → Accounted o (get_and_remove c tx id).0
unfolding get_and_remove
get_and_remove-Accounted {o = o} c tx id v =
    let P : InlineBlobCache × Option (List ℕ) → Type 0 = λ r. Accounted o r.0 in
    option_cases P (cap c.max_size) (λ e. v)
      λ m e.
        option_cases P (find tx c.by_tx) (λ no. v)
          λ bs found.
            option_cases P (find id bs) (λ no. v)
              λ blob k. record {
                same_cap = v.same_cap;
                exact = omega (arith, v.exact, held-erase tx id blob bs c.by_tx found k);
                under = shrunk o c.size (length blob) v.under;
              }

clear_tx-Accounted :
    {o : Option ℕ} (c : InlineBlobCache) (tx : ℤ) → Accounted o c → Accounted o (clear_tx c tx)
unfolding clear_tx
clear_tx-Accounted {o = o} c tx v =
    option_cases (Accounted o) (find tx c.by_tx) (λ no. v)
      λ bs found. record {
        same_cap = v.same_cap;
        exact = omega (
          arith,
          v.exact,
          total-erase (total length) tx c.by_tx,
          ap (counted (total length)) found,
        );
        under = shrunk o c.size (total length bs) v.under;
      }

clear_all-Accounted :
    {o : Option ℕ} (c : InlineBlobCache) → Accounted o c → Accounted o (clear_all c)
unfolding clear_all
clear_all-Accounted {o = o} c v = record {
  same_cap = v.same_cap;
  exact = refl;
  under = under_zero o;
}

-- The calls that the driver makes.
pub data CacheOp : Type 0 where
  adds : ℤ → ℤ → List ℕ → CacheOp
  gets : ℤ → ℤ → CacheOp
  clears_tx : ℤ → CacheOp
  clears_all : CacheOp

abbrev pub step : InlineBlobCache → CacheOp → InlineBlobCache
step c (adds tx id blob) = (add c tx id blob).0
step c (gets tx id) = (get_and_remove c tx id).0
step c (clears_tx tx) = clear_tx c tx
step c clears_all = clear_all c

abbrev pub run_ops : InlineBlobCache → List CacheOp → InlineBlobCache
run_ops c [] = c
run_ops c (op ∷ ops) = run_ops (step c op) ops

step-Accounted :
    {o : Option ℕ} (c : InlineBlobCache) (op : CacheOp) → Accounted o c → Accounted o (step c op)
step-Accounted c (adds tx id blob) v = add-Accounted c tx id blob v
step-Accounted c (gets tx id) v = get_and_remove-Accounted c tx id v
step-Accounted c (clears_tx tx) v = clear_tx-Accounted c tx v
step-Accounted c clears_all v = clear_all-Accounted c v

run_ops-Accounted :
    {o : Option ℕ} (c : InlineBlobCache) (ops : List CacheOp)
    → Accounted o c
    → Accounted o (run_ops c ops)
run_ops-Accounted c [] v = v
run_ops-Accounted c (op ∷ ops) v = run_ops-Accounted (step c op) ops (step-Accounted c op v)

-- After any calls on a new cache its size is the number of bytes that it holds, which is within
-- the cap, and 0 if the configured cap is not positive.
pub cache_size_exact :
    (n : ℤ) (ops : List CacheOp)
    → let c = run_ops (new_inline_blob_cache n) ops in (c.size ≡ held c) × UnderCap (cap n) c.size
cache_size_exact n ops =
    let v = run_ops-Accounted _ ops (new_inline_blob_cache-Accounted n) in (v.exact, v.under)
