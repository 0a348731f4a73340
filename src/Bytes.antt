-- ===== src/Bytes.antt =====
-- utils.go: Go's integers as bytes, in both byte orders, and the XDR and BLR forms of byte strings.
pub mod RoundTrip
pub mod Xdr
mod Tests
use firebirdsql_go.Base.{
  ℕ, ◌+◌, ◌-◌, ◌*◌, ◌/◌, ◌%◌, ◌^◌, ℤ, Option, none, some, List, [], ◌∷◌, ◌++◌, length, replicate,
  u16, u32, u64, i16, i32, i64, ◌==◌, if◌then◌else◌,
}

-- `byte(x >> k & 0xFF)` is byte k / 8 of the two's complement pattern, also of a negative x.
abbrev pub byte_at : ℕ → ℕ → ℕ
byte_at pattern k = pattern / 2 ^ k % 256

unfoldable pub int32_to_bytes : ℤ → List ℕ
int32_to_bytes i =
    byte_at (u32 i) 0 ∷ byte_at (u32 i) 8 ∷ byte_at (u32 i) 16 ∷ byte_at (u32 i) 24 ∷ []

unfoldable pub int64_to_bytes : ℤ → List ℕ
int64_to_bytes i =
    byte_at (u64 i) 0
    ∷ byte_at (u64 i) 8
    ∷ byte_at (u64 i) 16
    ∷ byte_at (u64 i) 24
    ∷ byte_at (u64 i) 32
    ∷ byte_at (u64 i) 40
    ∷ byte_at (u64 i) 48
    ∷ byte_at (u64 i) 56
    ∷ []

unfoldable pub bint64_to_bytes : ℤ → List ℕ
bint64_to_bytes i =
    byte_at (u64 i) 56
    ∷ byte_at (u64 i) 48
    ∷ byte_at (u64 i) 40
    ∷ byte_at (u64 i) 32
    ∷ byte_at (u64 i) 24
    ∷ byte_at (u64 i) 16
    ∷ byte_at (u64 i) 8
    ∷ byte_at (u64 i) 0
    ∷ []

unfoldable pub bint32_to_bytes : ℤ → List ℕ
bint32_to_bytes i =
    byte_at (u32 i) 24 ∷ byte_at (u32 i) 16 ∷ byte_at (u32 i) 8 ∷ byte_at (u32 i) 0 ∷ []

unfoldable pub int16_to_bytes : ℤ → List ℕ
int16_to_bytes i = byte_at (u16 i) 0 ∷ byte_at (u16 i) 8 ∷ []

-- The readers look at the first bytes of a slice; a shorter slice is a panic, `none`.
abbrev pub le16 : ℕ → ℕ → ℕ
le16 a b = a + 2 ^ 8 * b

abbrev pub le32 : ℕ → ℕ → ℕ → ℕ → ℕ
le32 a b c d = a + 2 ^ 8 * b + 2 ^ 16 * c + 2 ^ 24 * d

abbrev pub le64 : ℕ → ℕ → ℕ → ℕ → ℕ → ℕ → ℕ → ℕ → ℕ
le64 a b c d e f g h = le32 a b c d + 2 ^ 32 * le32 e f g h

unfoldable pub bytes_to_bint32 : List ℕ → Option ℤ
bytes_to_bint32 (a ∷ b ∷ c ∷ d ∷ _) = some (i32 (le32 d c b a))
bytes_to_bint32 _ = none

unfoldable pub bytes_to_int32 : List ℕ → Option ℤ
bytes_to_int32 (a ∷ b ∷ c ∷ d ∷ _) = some (i32 (le32 a b c d))
bytes_to_int32 _ = none

unfoldable pub bytes_to_bint16 : List ℕ → Option ℤ
bytes_to_bint16 (a ∷ b ∷ _) = some (i16 (le16 b a))
bytes_to_bint16 _ = none

unfoldable pub bytes_to_buint16 : List ℕ → Option ℕ
bytes_to_buint16 (a ∷ b ∷ _) = some (le16 b a)
bytes_to_buint16 _ = none

unfoldable pub bytes_to_int16 : List ℕ → Option ℤ
bytes_to_int16 (a ∷ b ∷ _) = some (i16 (le16 a b))
bytes_to_int16 _ = none

unfoldable pub bytes_to_uint16 : List ℕ → Option ℕ
bytes_to_uint16 (a ∷ b ∷ _) = some (le16 a b)
bytes_to_uint16 _ = none

unfoldable pub bytes_to_bint64 : List ℕ → Option ℤ
bytes_to_bint64 (a ∷ b ∷ c ∷ d ∷ e ∷ f ∷ g ∷ h ∷ _) = some (i64 (le64 h g f e d c b a))
bytes_to_bint64 _ = none

unfoldable pub bytes_to_int64 : List ℕ → Option ℤ
bytes_to_int64 (a ∷ b ∷ c ∷ d ∷ e ∷ f ∷ g ∷ h ∷ _) = some (i64 (le64 a b c d e f g h))
bytes_to_int64 _ = none

abbrev pub xdr_padding : ℕ → ℕ
xdr_padding n = if n % 4 == 0 then 0 else 4 - n % 4

-- A 4-byte big-endian length, the bytes, and zeros up to a multiple of four.
unfoldable pub xdr_bytes : List ℕ → List ℕ
xdr_bytes bs =
    let n = length bs in
    byte_at n 24 ∷ byte_at n 16 ∷ byte_at n 8 ∷ byte_at n 0 ∷ (bs ++ replicate (xdr_padding n) 0)

-- The BLR type description of a value and its wire form.
unfoldable pub int64_to_blr : ℤ → List ℕ × List ℕ
int64_to_blr i = (16 ∷ 0 ∷ [], bint64_to_bytes i)

unfoldable pub int32_to_blr : ℤ → List ℕ × List ℕ
int32_to_blr i = (8 ∷ 0 ∷ [], bint32_to_bytes i)

-- `(4 - nbytes) & 3` in Go's two's complement arithmetic.
abbrev pub blr_padding : ℕ → ℕ
blr_padding n = (4 - n % 4) % 4

unfoldable pub bytes_to_blr : List ℕ → List ℕ × List ℕ
bytes_to_blr v =
    let n = length v in (14 ∷ n % 256 ∷ n / 2 ^ 8 % 256 ∷ [], v ++ replicate (blr_padding n) 0)
