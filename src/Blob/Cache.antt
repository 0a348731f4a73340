-- ===== src/Blob/Cache.antt =====
-- `inlineBlobCache` of inline_blob.go: BLOBs that came with a row, by transaction and by id, under a
-- cap on their bytes. A map is its list of entries. The mutex makes each operation one step; a nil
-- cache, which does nothing, is left out.
pub mod Accounting
pub mod Lookup
use firebirdsql_go.Base.{
  ℕ, zero, suc, ◌+◌, ◌-◌, ℤ, pos, negsuc, Bool, true, false, Option, none, some, List, [], ◌∷◌,
  length, ltb, ◌==◌, if◌then◌else◌,
}

abbrev pub int_eq : ℤ → ℤ → Bool
int_eq (pos m) (pos n) = m == n
int_eq (negsuc m) (negsuc n) = m == n
int_eq _ _ = false

module _ {A : Type 0} where
  unfoldable pub find : ℤ → List (ℤ × A) → Option A
  find k [] = none
  find k ((j, a) ∷ m) = if int_eq j k then some a else find k m

  unfoldable pub put : ℤ → A → List (ℤ × A) → List (ℤ × A)
  put k a [] = (k, a) ∷ []
  put k a ((j, b) ∷ m) = if int_eq j k then (k, a) ∷ m else (j, b) ∷ put k a m

  -- A map has one entry for a key at most.
  unfoldable pub erase : ℤ → List (ℤ × A) → List (ℤ × A)
  erase k [] = []
  erase k ((j, a) ∷ m) = if int_eq j k then m else (j, a) ∷ erase k m

  -- The bytes of all entries.
  abbrev pub total : (A → ℕ) → List (ℤ × A) → ℕ
  total weight [] = 0
  total weight ((j, a) ∷ m) = weight a + total weight m

abbrev pub Blobs : Type 0
Blobs = List (ℤ × List ℕ)

pub record InlineBlobCache : Type 0 where
  pub max_size : ℤ
  pub size : ℕ
  pub by_tx : List (ℤ × Blobs)

-- The cap of a cache that is in use.
abbrev pub cap : ℤ → Option ℕ
cap (pos zero) = none
cap (pos (suc n)) = some (suc n)
cap (negsuc n) = none

unfoldable pub new_inline_blob_cache : ℤ → InlineBlobCache
new_inline_blob_cache n = record {
  max_size = elim (cap n) [ none ↦ negsuc 0 | some m ↦ pos m ];
  size = 0;
  by_tx = [];
}

abbrev pub or_empty : Option Blobs → Blobs
or_empty none = []
or_empty (some m) = m

-- The new cache, and whether the data was taken.
unfoldable pub add : InlineBlobCache → ℤ → ℤ → List ℕ → InlineBlobCache × Bool
add c tx id blob = elim (cap c.max_size) [
  | none ↦ (c, false)
  | some m ↦
      let by_blob = or_empty (find tx c.by_tx) in
      if ltb m (c.size + length blob) then (c, false) else elim (find id by_blob) [
        | some old ↦ (c, false)
        | none ↦ (
          record c { size = c.size + length blob; by_tx = put tx (put id blob by_blob) c.by_tx },
          true,
        )
      ]
]

-- Subtraction on ℕ is the code's, with its negative results set to 0.
unfoldable pub get_and_remove : InlineBlobCache → ℤ → ℤ → InlineBlobCache × Option (List ℕ)
get_and_remove c tx id = elim (cap c.max_size) [
  | none ↦ (c, none)
  | some m ↦ elim (find tx c.by_tx) [
    | none ↦ (c, none)
    | some by_blob ↦ elim (find id by_blob) [
      | none ↦ (c, none)
      | some blob ↦
          let left = erase id by_blob in
          (
            record c {
              size = c.size - length blob;
              by_tx = if length left == 0 then erase tx c.by_tx else put tx left c.by_tx;
            },
            some blob,
          )
    ]
  ]
]

unfoldable pub clear_tx : InlineBlobCache → ℤ → InlineBlobCache
clear_tx c tx = elim (find tx c.by_tx) [
  | none ↦ c
  | some by_blob ↦ record c { size = c.size - total length by_blob; by_tx = erase tx c.by_tx }
]

unfoldable pub clear_all : InlineBlobCache → InlineBlobCache
clear_all c = record c { size = 0; by_tx = [] }
