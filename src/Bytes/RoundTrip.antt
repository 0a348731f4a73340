-- ===== src/Bytes/RoundTrip.antt =====
-- The integer encoders of utils.go against the readers, and the bytes that they write.
use firebirdsql_go.Base.{
  ℕ, ◌≡◌, ap, ◌∙◌, arith, ℤ, some, List, ◌++◌, IsI16, IsI32, IsI64, u16, u32, u64, i16, i32, i64,
  i16-u16, i32-u32, i64-u64, u16-lt, u32-lt, u64-lt, ◌<◌, ◌^◌,
}
use firebirdsql_go.Bytes.{
  byte_at, le16, le32, le64, int16_to_bytes, int32_to_bytes, int64_to_bytes, bint32_to_bytes,
  bint64_to_bytes, bytes_to_int16, bytes_to_int32, bytes_to_int64, bytes_to_bint32, bytes_to_bint64,
}

-- The bytes of a pattern make up the pattern.
pub le16_bytes : (n : ℕ) → n < 2 ^ 16 → le16 (byte_at n 0) (byte_at n 8) ≡ n
le16_bytes n h = omega arith

pub le32_bytes :
    (n : ℕ) → n < 2 ^ 32 → le32 (byte_at n 0) (byte_at n 8) (byte_at n 16) (byte_at n 24) ≡ n
le32_bytes n h = omega arith

pub le64_bytes :
    (n : ℕ)
    → n < 2 ^ 64
    → le64
        (byte_at n 0)
        (byte_at n 8)
        (byte_at n 16)
        (byte_at n 24)
        (byte_at n 32)
        (byte_at n 40)
        (byte_at n 48)
        (byte_at n 56)
      ≡ n
le64_bytes n h = omega arith

-- Reading an int16 back from the front of a buffer, little endian.
pub int16_round_trip :
    (z : ℤ) (rest : List ℕ) → IsI16 z → bytes_to_int16 (int16_to_bytes z ++ rest) ≡ some z
unfolding int16_to_bytes bytes_to_int16
int16_round_trip z rest h = ap some (ap i16 (le16_bytes (u16 z) (u16-lt z)) ∙ i16-u16 z h)

pub int32_round_trip :
    (z : ℤ) (rest : List ℕ) → IsI32 z → bytes_to_int32 (int32_to_bytes z ++ rest) ≡ some z
unfolding int32_to_bytes bytes_to_int32
int32_round_trip z rest h = ap some (ap i32 (le32_bytes (u32 z) (u32-lt z)) ∙ i32-u32 z h)

pub int64_round_trip :
    (z : ℤ) (rest : List ℕ) → IsI64 z → bytes_to_int64 (int64_to_bytes z ++ rest) ≡ some z
unfolding int64_to_bytes bytes_to_int64
int64_round_trip z rest h = ap some (ap i64 (le64_bytes (u64 z) (u64-lt z)) ∙ i64-u64 z h)

pub bint32_round_trip :
    (z : ℤ) (rest : List ℕ) → IsI32 z → bytes_to_bint32 (bint32_to_bytes z ++ rest) ≡ some z
unfolding bint32_to_bytes bytes_to_bint32
bint32_round_trip z rest h = ap some (ap i32 (le32_bytes (u32 z) (u32-lt z)) ∙ i32-u32 z h)

pub bint64_round_trip :
    (z : ℤ) (rest : List ℕ) → IsI64 z → bytes_to_bint64 (bint64_to_bytes z ++ rest) ≡ some z
unfolding bint64_to_bytes bytes_to_bint64
bint64_round_trip z rest h = ap some (ap i64 (le64_bytes (u64 z) (u64-lt z)) ∙ i64-u64 z h)

-- Every int16, int32 and int64 that an encoder wrote at the front of a buffer is what the reader of
-- the same width and byte order gives back, whatever follows it.
integers_round_trip :
    (h i l : ℤ) (rest : List ℕ)
    → IsI16 h
    → IsI32 i
    → IsI64 l
    → (bytes_to_int16 (int16_to_bytes h ++ rest) ≡ some h)
      × (bytes_to_int32 (int32_to_bytes i ++ rest) ≡ some i)
      × (bytes_to_int64 (int64_to_bytes l ++ rest) ≡ some l)
      × (bytes_to_bint32 (bint32_to_bytes i ++ rest) ≡ some i)
      × (bytes_to_bint64 (bint64_to_bytes l ++ rest) ≡ some l)
integers_round_trip h i l rest hh hi hl = (
  int16_round_trip h rest hh,
  int32_round_trip i rest hi,
  int64_round_trip l rest hl,
  bint32_round_trip i rest hi,
  bint64_round_trip l rest hl,
)
