-- ===== src/Base/Words.antt =====
-- Bytes and Go's machine integers. A signed integer is a ℤ, and its two's complement pattern is the
-- number that shifts and masks work on.
use Prim.Native.Nat.{ℕ, ◌-◌, ◌%◌, ◌^◌, ◌<◌}
use Prim.Native.Char.{code}
use Prim.Native.String.{String}
use mathlib.Core.Path.{◌≡◌, refl}
use mathlib.Core.Bool.{Bool, true, false, ◌&&◌}
use mathlib.Core.Logic.{◌↔◌}
use mathlib.Core.List.{List, [], ◌∷◌, ◌++◌}
use native.Mathlib.Omega.{arith}
use firebirdsql_go.Base.Tests.{ltb, ◌==◌, if◌then◌else◌}
use firebirdsql_go.Base.Int.{ℤ, pos, negsuc}

abbrev pub IsByte : ℕ → Type 0
IsByte b = b < 256

abbrev pub All {ℓ κ} : {A : Type ℓ} → (A → Type κ) → List A → Type κ
All P [] = Unit
All P (x ∷ xs) = P x × All P xs

abbrev pub IsBytes : List ℕ → Type 0
IsBytes = All IsByte

pub All-append {ℓ κ} :
    {A : Type ℓ} (P : A → Type κ) (xs ys : List A) → All P xs → All P ys → All P (xs ++ ys)
All-append P [] ys h k = k
All-append P (x ∷ xs) ys h k = (h.0, All-append P xs ys h.1 k)

-- The code points of a text: its bytes, if it is ASCII, as every literal here is.
abbrev pub bytes_of : String → List ℕ
bytes_of String.[] = []
bytes_of (String.◌∷◌ c s) = code c ∷ bytes_of s

-- Go's `==` on strings and `bytes.Equal`.
unfoldable pub bytes_eq : List ℕ → List ℕ → Bool
bytes_eq [] [] = true
bytes_eq [] (y ∷ ys) = false
bytes_eq (x ∷ xs) [] = false
bytes_eq (x ∷ xs) (y ∷ ys) = x == y && bytes_eq xs ys

pub bytes_eq_iff : (xs ys : List ℕ) → (bytes_eq xs ys ≡ true) ↔ (xs ≡ ys)
unfolding bytes_eq
bytes_eq_iff [] [] = (λ h. refl, λ h. refl)
bytes_eq_iff [] (y ∷ ys) = (λ h. cc, λ h. cc)
bytes_eq_iff (x ∷ xs) [] = (λ h. cc, λ h. cc)
bytes_eq_iff (x ∷ xs) (y ∷ ys) =
    (λ h. ground (arith, (bytes_eq_iff xs ys).0), λ h. ground (arith, (bytes_eq_iff xs ys).1))

-- The patterns of int16, int32 and int64: a conversion such as `int32(x)` drops the high bits.
abbrev pub u16 : ℤ → ℕ
u16 (pos n) = n % 2 ^ 16
u16 (negsuc n) = 2 ^ 16 - 1 - n % 2 ^ 16

abbrev pub u32 : ℤ → ℕ
u32 (pos n) = n % 2 ^ 32
u32 (negsuc n) = 2 ^ 32 - 1 - n % 2 ^ 32

abbrev pub u64 : ℤ → ℕ
u64 (pos n) = n % 2 ^ 64
u64 (negsuc n) = 2 ^ 64 - 1 - n % 2 ^ 64

-- The signed reading of a pattern.
abbrev pub i16 : ℕ → ℤ
i16 n = if ltb n (2 ^ 15) then pos n else negsuc (2 ^ 16 - 1 - n)

abbrev pub i32 : ℕ → ℤ
i32 n = if ltb n (2 ^ 31) then pos n else negsuc (2 ^ 32 - 1 - n)

abbrev pub i64 : ℕ → ℤ
i64 n = if ltb n (2 ^ 63) then pos n else negsuc (2 ^ 64 - 1 - n)

-- The ranges of the signed types.
abbrev pub IsI16 : ℤ → Type 0
IsI16 (pos n) = n < 2 ^ 15
IsI16 (negsuc n) = n < 2 ^ 15

abbrev pub IsI32 : ℤ → Type 0
IsI32 (pos n) = n < 2 ^ 31
IsI32 (negsuc n) = n < 2 ^ 31

abbrev pub IsI64 : ℤ → Type 0
IsI64 (pos n) = n < 2 ^ 63
IsI64 (negsuc n) = n < 2 ^ 63

pub i16-u16 : (z : ℤ) → IsI16 z → i16 (u16 z) ≡ z
i16-u16 (pos n) h = ground arith
i16-u16 (negsuc n) h = ground arith

pub i32-u32 : (z : ℤ) → IsI32 z → i32 (u32 z) ≡ z
i32-u32 (pos n) h = ground arith
i32-u32 (negsuc n) h = ground arith

pub i64-u64 : (z : ℤ) → IsI64 z → i64 (u64 z) ≡ z
i64-u64 (pos n) h = ground arith
i64-u64 (negsuc n) h = ground arith

pub u16-lt : (z : ℤ) → u16 z < 2 ^ 16
u16-lt (pos n) = omega arith
u16-lt (negsuc n) = omega arith

pub u32-lt : (z : ℤ) → u32 z < 2 ^ 32
u32-lt (pos n) = omega arith
u32-lt (negsuc n) = omega arith

pub u64-lt : (z : ℤ) → u64 z < 2 ^ 64
u64-lt (pos n) = omega arith
u64-lt (negsuc n) = omega arith
