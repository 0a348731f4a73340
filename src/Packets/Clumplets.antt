-- ===== src/Packets/Clumplets.antt =====
-- A server's side of a parameter block: tags, length bytes and values.
use firebirdsql_go.Base.{
  ℕ, zero, suc, ◌%◌, ◌<◌, ◌≤◌, ◌≡◌, refl, arith, All, true, Option, none, some, List, [], ◌∷◌, ◌++◌,
  length, take, drop, length-append, take-append, drop-append, append_assoc, leb, if◌then◌else◌,
}
use firebirdsql_go.Packets.Blocks.{clumplet}

-- Items in the form in which a server reads them: the tag, the length in a byte, and the value.
abbrev pub clumplets : List (ℕ × List ℕ) → List ℕ
clumplets [] = []
clumplets ((tag, v) ∷ items) = clumplet tag v ++ clumplets items

-- A server reads a tag, a length and as many bytes, until nothing is left. The fuel is the number of
-- bytes, and each item takes two at least.
unfoldable pub read_clumplets : ℕ → List ℕ → Option (List (ℕ × List ℕ))
read_clumplets fuel [] = some []
read_clumplets zero (b ∷ bs) = none
read_clumplets (suc fuel) (tag ∷ []) = none
read_clumplets (suc fuel) (tag ∷ n ∷ bs) =
    let rest = read_clumplets fuel (drop n bs) in
    if leb n (length bs) then prefix (tag, take n bs) rest else none
  where
    prefix : ℕ × List ℕ → Option (List (ℕ × List ℕ)) → Option (List (ℕ × List ℕ))
    prefix i none = none
    prefix i (some is) = some (i ∷ is)

-- A block is its version and its items.
abbrev pub read_block : List ℕ → Option (List (ℕ × List ℕ))
read_block [] = none
read_block (version ∷ bs) = read_clumplets (length bs) bs

abbrev pub IsShort : ℕ × List ℕ → Type 0
IsShort (tag, v) = length v < 256

pub read_clumplets-clumplets :
    (fuel : ℕ) (is : List (ℕ × List ℕ))
    → length (clumplets is) ≤ fuel
    → All IsShort is
    → read_clumplets fuel (clumplets is) ≡ some is
unfolding read_clumplets
read_clumplets-clumplets zero [] h short = refl
read_clumplets-clumplets (suc fuel) [] h short = refl
read_clumplets-clumplets zero ((tag, v) ∷ is) h short = elim h [ ]
read_clumplets-clumplets (suc fuel) ((tag, v) ∷ is) h short = rw (
  small (length v) short.0,
  fits (length v) (length (v ++ clumplets is)) (omega (arith, length-append v (clumplets is))),
  drop-append v (clumplets is),
  take-append v (clumplets is),
  read_clumplets-clumplets fuel is (omega (arith, length-append v (clumplets is))) short.1,
)
  where
    small : (n : ℕ) → n < 256 → n % 256 ≡ n
    small n h = omega arith

    fits : (n m : ℕ) → n ≤ m → leb n m ≡ true
    fits n m h = ground arith

pub clumplets-append :
    (is js : List (ℕ × List ℕ)) → clumplets (is ++ js) ≡ clumplets is ++ clumplets js
clumplets-append [] js = refl
clumplets-append ((tag, v) ∷ is) js = simp (clumplets-append is js, append_assoc)
