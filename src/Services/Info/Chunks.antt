-- ===== src/Services/Info/Chunks.antt =====
-- What `WaitBuffer` makes of the responses of a server: the stream, however the server cuts it.
use firebirdsql_go.Base.{
  ℕ, ◌+◌, ◌-◌, ◌*◌, ◌/◌, ◌%◌, ◌^◌, ◌<◌, ◌≡◌, refl, arith, true, false, Option, some, List, [], ◌∷◌,
  length, take, take-append, ap, append-nil, leb, ltb, ◌==◌, All,
}
use firebirdsql_go.Bytes.{bytes_to_uint16}
use firebirdsql_go.Xpb.{slice}
use firebirdsql_go.Services.Consts.{isc_info_end, isc_info_svc_to_eof, isc_info_svc_timeout}
use firebirdsql_go.Services.Info.{get_service_info, value}
use firebirdsql_go.Services.Info.Stream.{chunk_pass, pass, send, finished, wait_buffer}

-- What a server answers: a piece of the stream, that nothing came in time, or the end.
pub data Piece : Type 0 where
  piece : List ℕ → Piece
  timeout : Piece

abbrev pub answer : Piece → List ℕ
answer (piece d) = isc_info_svc_to_eof ∷ length d % 256 ∷ length d / 256 ∷ d
answer timeout = isc_info_svc_to_eof ∷ 0 ∷ 0 ∷ isc_info_svc_timeout ∷ []

abbrev pub end_answer : List ℕ
end_answer = isc_info_svc_to_eof ∷ 0 ∷ 0 ∷ isc_info_end ∷ []

-- The length word holds the length of a piece.
abbrev pub FitsChunk : Piece → Type 0
FitsChunk (piece d) = (0 < length d) × (length d < 2 ^ 16)
FitsChunk timeout = Unit

abbrev pub pieces : List Piece → List (List ℕ)
pieces [] = []
pieces (piece d ∷ ps) = d ∷ pieces ps
pieces (timeout ∷ ps) = pieces ps

abbrev pub responses : List Piece → List (Option (List ℕ))
responses [] = some end_answer ∷ []
responses (p ∷ ps) = some (answer p) ∷ responses ps

-- The two slices of such an answer.
pub word_slice : (a b c : ℕ) (d : List ℕ) → slice (a ∷ b ∷ c ∷ d) 1 3 ≡ some (b ∷ c ∷ [])
word_slice a b c d = rw (slice, within)
  where
    within : leb 3 (length (a ∷ b ∷ c ∷ d)) ≡ true
    within = ground arith

piece_slice : (a b c : ℕ) (d : List ℕ) → slice (a ∷ b ∷ c ∷ d) 3 (3 + length d) ≡ some d
piece_slice a b c d =
    rw (slice, behind (length d), within, span (length d)) (ap some (take_whole d))
  where
    behind : (n : ℕ) → leb 3 (3 + n) ≡ true
    behind n = ground arith

    within : leb (3 + length d) (length (a ∷ b ∷ c ∷ d)) ≡ true
    within = ground arith

    span : (n : ℕ) → 3 + n - 3 ≡ n
    span n = omega arith

    take_whole : (d : List ℕ) → take (length d) d ≡ d
    take_whole d = rw append-nil at (take-append d [])

chunk_pass-piece :
    (d : List ℕ) (room : ℕ)
    → FitsChunk (piece d)
    → chunk_pass (answer (piece d)) room ≡ value (send d)
unfolding chunk_pass bytes_to_uint16
chunk_pass-piece d room h = rw (
  chunk_pass,
  enough,
  word_slice isc_info_svc_to_eof (length d % 256) (length d / 256) d,
  joined (length d),
  some_data (length d) h.0,
  no_excess,
  piece_slice isc_info_svc_to_eof (length d % 256) (length d / 256) d,
)
  where
    enough : ltb (length (answer (piece d))) 4 ≡ false
    enough = ground (arith, h.0)

    joined : (n : ℕ) → n % 256 + 2 ^ 8 * (n / 256) ≡ n
    joined n = omega arith

    some_data : (n : ℕ) → 0 < n → (n == 0) ≡ false
    some_data n lt = ground arith

    no_excess : ltb (length (answer (piece d))) (3 + length d) ≡ false
    no_excess = ground arith

-- However the server cuts its stream into pieces of 1 to 65535 bytes, and whatever timeouts come
-- between them, the loop sends on exactly the pieces, in their order, and finishes at the end
-- mark.
pub wait_buffer-responses :
    (ps : List Piece) (room : ℕ)
    → All FitsChunk ps
    → wait_buffer (responses ps) room ≡ (pieces ps, finished)
unfolding wait_buffer pass chunk_pass get_service_info bytes_to_uint16
wait_buffer-responses [] room h = refl
wait_buffer-responses (timeout ∷ ps) room h = wait_buffer-responses ps room h.1
wait_buffer-responses (piece d ∷ ps) room h =
    rw (wait_buffer, chunk_pass-piece d room h.0, wait_buffer-responses ps room h.1)
