-- ===== src/Bytes/Tests.antt =====
-- Runs of the byte encoders, and their theorems at concrete values.
use firebirdsql_go.Base.{◌≡◌, refl, negsuc, [], ◌∷◌}
use firebirdsql_go.Bytes.{bint32_to_bytes, xdr_bytes}

minus_two : bint32_to_bytes (negsuc 1) ≡ 255 ∷ 255 ∷ 255 ∷ 254 ∷ []
unfolding bint32_to_bytes
minus_two = refl

five_bytes : xdr_bytes (1 ∷ 2 ∷ 3 ∷ 4 ∷ 5 ∷ []) ≡ 0 ∷ 0 ∷ 0 ∷ 5 ∷ 1 ∷ 2 ∷ 3 ∷ 4 ∷ 5 ∷ 0 ∷ 0 ∷ 0 ∷ []
unfolding xdr_bytes
five_bytes = refl
