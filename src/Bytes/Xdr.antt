-- ===== src/Bytes/Xdr.antt =====
-- `xdrBytes` and `_bytesToBlr`: the length word, the alignment and the bytes kept.
use firebirdsql_go.Base.{
  ℕ, zero, suc, ◌+◌, ◌*◌, ◌/◌, ◌%◌, ◌^◌, ◌≤◌, ◌<◌, ◌≡◌, refl, ap, ◌∙◌, arith, pos, some, List, [],
  ◌∷◌, ◌++◌, IsByte, IsBytes, All-append, length, length-append, length-replicate, replicate, i32,
}
use firebirdsql_go.Bytes.{xdr_bytes, xdr_padding, bytes_to_blr, blr_padding, bytes_to_bint32}
use firebirdsql_go.Bytes.RoundTrip.{le32_bytes}

pub length-xdr_bytes :
    (bs : List ℕ) → length (xdr_bytes bs) ≡ 4 + (length bs + xdr_padding (length bs))
unfolding xdr_bytes
length-xdr_bytes bs = omega (
  arith,
  length-append bs (replicate (xdr_padding (length bs)) 0),
  length-replicate {A = ℕ} (xdr_padding (length bs)) 0,
)

xdr_padding_aligns : (n : ℕ) → ((n + xdr_padding n) % 4 ≡ 0) × (xdr_padding n < 4)
xdr_padding_aligns n = ground arith

-- An XDR string is aligned to four bytes, and is at most seven bytes longer than its content.
xdr_bytes-aligned :
    (bs : List ℕ)
    → (length (xdr_bytes bs) % 4 ≡ 0)
      × (length bs + 4 ≤ length (xdr_bytes bs))
      × (length (xdr_bytes bs) ≤ length bs + 7)
xdr_bytes-aligned bs = omega (arith, length-xdr_bytes bs, xdr_padding_aligns (length bs))

-- The length word reads back, for every string that an int32 can measure.
pub bytes_to_bint32-xdr_bytes :
    (bs rest : List ℕ)
    → length bs < 2 ^ 31
    → bytes_to_bint32 (xdr_bytes bs ++ rest) ≡ some (pos (length bs))
unfolding xdr_bytes bytes_to_bint32
bytes_to_bint32-xdr_bytes bs rest h =
    ap some (ap i32 (le32_bytes (length bs) (omega arith)) ∙ ground arith)

zeros-IsBytes : (n : ℕ) → IsBytes (replicate n 0)
zeros-IsBytes zero = tt
zeros-IsBytes (suc n) = (omega arith, zeros-IsBytes n)

pub xdr_bytes-IsBytes : (bs : List ℕ) → IsBytes bs → IsBytes (xdr_bytes bs)
unfolding xdr_bytes
xdr_bytes-IsBytes bs h =
    let padded : IsBytes (bs ++ replicate (xdr_padding (length bs)) 0) =
      All-append IsByte bs _ h (zeros-IsBytes (xdr_padding (length bs))) in
    (omega arith, (omega arith, (omega arith, (omega arith, padded))))

-- The length in a text parameter's BLR is exact up to 65535 bytes, and its data is padded to a word.
bytes_to_blr_shape :
    (v : List ℕ)
    → length v < 2 ^ 16
    → (b : ℕ) × (c : ℕ) × ((bytes_to_blr v).0 ≡ 14 ∷ b ∷ c ∷ [])
      × (b + 256 * c ≡ length v)
      × (length (bytes_to_blr v).1 % 4 ≡ 0)
unfolding bytes_to_blr
bytes_to_blr_shape v h = (
  length v % 256,
  length v / 2 ^ 8 % 256,
  refl,
  omega arith,
  omega (
    arith,
    length-append v (replicate (blr_padding (length v)) 0),
    length-replicate {A = ℕ} (blr_padding (length v)) 0,
  ),
)
