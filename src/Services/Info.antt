-- ===== src/Services/Info.antt =====
-- service_manager.go: what the service answers. `GetServiceInfo` gives the buffer of a response or
-- an error, and the rest of the code reads that buffer.
pub mod Stream
pub mod Chunks
pub mod Safety
use firebirdsql_go.Base.{
  ℕ, ◌+◌, ℤ, pos, Bool, true, false, not, Option, none, some, List, [], ◌∷◌, length, take, drop,
  leb, ltb, ◌==◌, bytes_eq, if◌then◌else◌,
}
use firebirdsql_go.Xpb.{XpbReader, Read, Failure, new_reader, get_int16, get_string}
use firebirdsql_go.Services.Consts.{isc_info_end, isc_info_svc_line}

-- `panic` is no error of the code, but an index or a slice out of range.
pub data InfoError : Type 0 where
  no_response empty_buffer wrong_item short_line short_chunk end_of_stream : InfoError
  over_buffer too_large panic : InfoError
  reader : Failure → InfoError
  field_before_user : ℕ → InfoError

pub data Info (A : Type 0) : Type 0 where
  value : A → Info A
  error : InfoError → Info A

infixl 5 ◌>>=◌
abbrev pub ◌>>=◌ : {A B : Type 0} → Info A → (A → Info B) → Info B
value a >>= f = f a
error e >>= f = error e

-- `GetServiceInfo` behind the exchange: the response, if there is one, and the item asked for.
unfoldable pub get_service_info : Option (List ℕ) → ℕ → Info (List ℕ)
get_service_info none item = error no_response
get_service_info (some []) item = error empty_buffer
get_service_info (some (b ∷ bs)) item = if b == item then value (b ∷ bs) else error wrong_item

-- Go's `return v, rdr.Err()` on what a read leaves.
abbrev pub with_err : {A : Type 0} → Read A → Info A
with_err none = error panic
with_err (some (r, v)) = elim r.err [ none ↦ value v | some f ↦ error (reader f) ]

unfoldable pub get_service_info_int : Option (List ℕ) → ℕ → Info ℤ
unfolding get_service_info
get_service_info_int response item =
    get_service_info response item >>= λ buf. with_err (get_int16 (new_reader (drop 1 buf)))

unfoldable pub get_service_info_string : Option (List ℕ) → ℕ → Info (List ℕ)
unfolding get_service_info
get_service_info_string response item =
    get_service_info response item >>= λ buf. with_err (get_string (new_reader (drop 1 buf)))

-- `GetString`: a line, or none at the end.
unfoldable pub get_line : Option (List ℕ) → Info (Option (List ℕ))
unfolding get_service_info
get_line response = get_service_info response isc_info_svc_line >>= λ buf.
    if ltb (length buf) 4
    then error short_line
    else if bytes_eq (take 4 buf) (isc_info_svc_line ∷ 0 ∷ 0 ∷ isc_info_end ∷ [])
    then value none
    else (with_err (get_string (new_reader (drop 1 buf))) >>= λ s. value (some s))
