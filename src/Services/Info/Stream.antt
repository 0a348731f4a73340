-- ===== src/Services/Info/Stream.antt =====
-- The loop of `WaitBuffer`. Each pass takes one response; what it sends down the channel is a list.
use firebirdsql_go.Base.{
  ℕ, ◌+◌, ◌*◌, ◌^◌, not, Option, none, some, List, [], ◌∷◌, length, get_elem?, leb, ltb, ◌==◌,
  if◌then◌else◌,
}
use firebirdsql_go.Bytes.{bytes_to_uint16}
use firebirdsql_go.Xpb.{slice}
use firebirdsql_go.Services.Consts.{
  isc_info_end, isc_info_truncated, isc_info_svc_to_eof, isc_info_svc_timeout,
}
use firebirdsql_go.Services.Info.{
  InfoError, short_chunk, end_of_stream, over_buffer, too_large, panic, Info, value, error, ◌>>=◌,
  get_service_info,
}

abbrev pub max_wire_payload : ℕ
max_wire_payload = 2 ^ 24

-- `BUFFER_LEN`.
abbrev pub buffer_len : ℕ
buffer_len = 1024

-- What a pass does: it sends a chunk, it asks again, with that much room, or it is the last.
pub data Pass : Type 0 where
  send : List ℕ → Pass
  again : ℕ → Pass
  last : Pass

-- Go's index, slice or conversion, which may panic.
abbrev pub or_panic : {A : Type 0} → Option A → Info A
or_panic none = error panic
or_panic (some a) = value a

-- The case `isc_info_svc_to_eof`.
unfoldable pub chunk_pass : List ℕ → ℕ → Info Pass
chunk_pass buf room =
    if ltb (length buf) 4
    then error short_chunk
    else (or_panic (slice buf 1 3) >>= λ word. or_panic (bytes_to_uint16 word) >>= λ data_len.
        if data_len == 0
        then (or_panic (get_elem? buf 3) >>= λ b.
            if b == isc_info_svc_timeout
            then value (again room)
            else if not (b == isc_info_end)
            then error end_of_stream
            else value last)
        else if ltb (length buf) (3 + data_len)
        then error over_buffer
        else (or_panic (slice buf 3 (3 + data_len)) >>= λ chunk. value (send chunk)))

-- The switch on `buf[0]`, which has no default.
unfoldable pub pass : List ℕ → ℕ → Info Pass
unfolding chunk_pass
pass buf room = or_panic (get_elem? buf 0) >>= λ b.
    if b == isc_info_svc_to_eof
    then chunk_pass buf room
    else if b == isc_info_truncated
    then (if leb max_wire_payload room then error too_large else value (again (room * 2)))
    else if b == isc_info_end
    then value last
    else value (again room)

-- How the loop stands when the responses are used up: it waits for one, it has returned, or failed.
pub data Status : Type 0 where
  waiting finished : Status
  failed : InfoError → Status

unfoldable pub wait_buffer : List (Option (List ℕ)) → ℕ → List (List ℕ) × Status
unfolding get_service_info pass
wait_buffer [] room = ([], waiting)
wait_buffer (r ∷ rs) room = elim (get_service_info r isc_info_svc_to_eof >>= λ buf. pass buf room) [
  | error e ↦ ([], failed e)
  | value last ↦ ([], finished)
  | value (again more) ↦ wait_buffer rs more
  | value (send chunk) ↦ let (sent, s) = wait_buffer rs room in (chunk ∷ sent, s)
]
