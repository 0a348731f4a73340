-- ===== src/Texts.antt =====
-- Go's string functions as the driver uses them, its decimal numerals, and `splitList` of utils.go. A string is its bytes.
-- White space and letter case are those of ASCII, in which every DSN value of interest is written.
pub mod Lists
use firebirdsql_go.Base.{
  ℕ, ◌+◌, ◌-◌, ◌≡◌, Bool, true, false, ◌&&◌, ◌||◌, List, [], ◌∷◌, ◌++◌, bytes_eq, leb, ◌==◌,
  if◌then◌else◌, zero, suc, ◌/◌, ◌%◌, ltb, ℤ, pos, negsuc, Option, none, some,
}
use mathlib.Core.List.{reverse}

unfoldable pub is_space : ℕ → Bool
is_space c = c == 32 || (leb 9 c && leb c 13)

unfoldable pub trim_left : List ℕ → List ℕ
unfolding is_space
trim_left [] = []
trim_left (c ∷ s) = if is_space c then trim_left s else c ∷ s

-- `strings.TrimSpace`.
unfoldable pub trim_space : List ℕ → List ℕ
unfolding trim_left
trim_space s = reverse (trim_left (reverse (trim_left s)))

unfoldable pub lower_byte : ℕ → ℕ
lower_byte c = if leb 65 c && leb c 90 then c + 32 else c

-- `strings.ToLower`.
unfoldable pub to_lower : List ℕ → List ℕ
unfolding lower_byte
to_lower [] = []
to_lower (c ∷ s) = lower_byte c ∷ to_lower s

abbrev pub onto_first : ℕ → List (List ℕ) → List (List ℕ)
onto_first c [] = (c ∷ []) ∷ []
onto_first c (p ∷ ps) = (c ∷ p) ∷ ps

-- `strings.Split` by one character: always one part at least.
unfoldable pub split : List ℕ → ℕ → List (List ℕ)
split [] sep = [] ∷ []
split (c ∷ s) sep = if c == sep then [] ∷ split s sep else onto_first c (split s sep)

-- `slices.Contains`.
unfoldable pub contains : List (List ℕ) → List ℕ → Bool
unfolding bytes_eq
contains [] x = false
contains (y ∷ ys) x = bytes_eq y x || contains ys x

unfoldable pub trimmed_parts : List (List ℕ) → List (List ℕ)
unfolding trim_space bytes_eq
trimmed_parts [] = []
trimmed_parts (p ∷ ps) =
    let q = trim_space p in if bytes_eq q [] then trimmed_parts ps else q ∷ trimmed_parts ps

-- `splitList`: the parts between commas, trimmed, the empty ones dropped.
unfoldable pub split_list : List ℕ → List (List ℕ)
unfolding split trimmed_parts
split_list s = trimmed_parts (split s b',')

abbrev pub strip_prefix : List ℕ → List ℕ → Option (List ℕ)
strip_prefix [] s = some s
strip_prefix (p ∷ ps) [] = none
strip_prefix (p ∷ ps) (c ∷ s) = if p == c then strip_prefix ps s else none

-- `strings.Replace` with count 1: the first occurrence of `old`, if there is one.
unfoldable pub replace_first : List ℕ → List ℕ → List ℕ → List ℕ
replace_first [] old new = elim (strip_prefix old []) [ some rest ↦ new ++ rest | none ↦ [] ]
replace_first (c ∷ s) old new = elim (strip_prefix old (c ∷ s)) [
  | some rest ↦ new ++ rest
  | none ↦ c ∷ replace_first s old new
]

-- The decimal digits of a number, the last one first, in front of `acc`.
unfoldable pub digits : ℕ → ℕ → List ℕ → List ℕ
digits zero n acc = acc
digits (suc fuel) n acc = elim (ltb n 10) [
  | true ↦ (48 + n % 10) ∷ acc
  | false ↦ digits fuel (n / 10) ((48 + n % 10) ∷ acc)
]

-- `strconv.Itoa`: twenty digits are more than an int64 has.
unfoldable pub itoa : ℤ → List ℕ
itoa (pos n) = digits 20 n []
itoa (negsuc n) = b'-' ∷ digits 20 (n + 1) []

unfoldable pub upper_byte : ℕ → ℕ
upper_byte c = if leb 97 c && leb c 122 then c - 32 else c

-- `strings.ToUpper`.
unfoldable pub to_upper : List ℕ → List ℕ
unfolding upper_byte
to_upper [] = []
to_upper (c ∷ s) = upper_byte c ∷ to_upper s

-- A digit of `hex.EncodeToString`.
unfoldable pub hex_digit : ℕ → ℕ
hex_digit n = if ltb n 10 then 48 + n else 87 + n

-- `hex.EncodeToString`.
unfoldable pub hex_encode : List ℕ → List ℕ
unfolding hex_digit
hex_encode [] = []
hex_encode (b ∷ bs) = hex_digit (b / 16) ∷ hex_digit (b % 16) ∷ hex_encode bs
