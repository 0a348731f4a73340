-- ===== src/Blob.antt =====
-- BLOB data on the wire: the segments of an op_get_segment response (`getBlobSegments` of
-- wireprotocol.go) and of an inline blob (`decodeInlineSegmentBuffer` of inline_blob.go).
pub mod Cache
pub mod Segments
pub mod InPlace
mod Tests
use firebirdsql_go.Base.{
  ℕ, zero, suc, ◌+◌, Option, none, some, List, [], ◌∷◌, ◌++◌, length, take, drop, ltb, leb, ◌==◌,
  if◌then◌else◌,
}
use firebirdsql_go.Bytes.{bytes_to_uint16}

-- `header` is a length word that is cut short, `segment` a length that exceeds the buffer. `panic`
-- would be a Go panic, and `stuck` means that the fuel ran out.
pub data Decoded : Type 0 where
  done : List ℕ → Decoded
  header segment panic stuck : Decoded

-- What is to be done with the length word, if there is one.
abbrev pub with_length : Option ℕ → (ℕ → Decoded) → Decoded
with_length none f = panic
with_length (some n) f = f n

-- The loop `for len(buf) > 0` of `getBlobSegments`, which appends the segments to `blob`.
unfoldable pub append_segments : ℕ → List ℕ → List ℕ → Decoded
append_segments fuel [] blob = done blob
append_segments zero (b ∷ bs) blob = stuck
append_segments (suc fuel) (b ∷ bs) blob =
    let buf = b ∷ bs in
    if ltb (length buf) 2
    then header
    else with_length (bytes_to_uint16 (take 2 buf)) λ ln.
      let rest = append_segments fuel (drop (ln + 2) buf) (blob ++ take ln (drop 2 buf)) in
      if ltb (length buf) (ln + 2) then segment else rest

-- `copy(buf[out:], piece)` within the buffer.
abbrev pub copy_at : List ℕ → ℕ → List ℕ → List ℕ
copy_at buf out piece = take out buf ++ (piece ++ drop (out + length piece) buf)

-- The loop of `decodeInlineSegmentBuffer`: the segments are moved to the front of the buffer that
-- they stand in. Its result is `buf[:outPos]`.
unfoldable pub compact : ℕ → List ℕ → ℕ → ℕ → Decoded
compact zero buf cursor out = if leb (length buf) cursor then done (take out buf) else stuck
compact (suc fuel) buf cursor out =
    if leb (length buf) cursor
    then done (take out buf)
    else if ltb (length buf) (cursor + 2)
    then header
    else with_length (bytes_to_uint16 (take 2 (drop cursor buf))) λ ln.
      let piece = take ln (drop (cursor + 2) buf) in
      let skipped = compact fuel buf (cursor + 2) out in
      let moved = compact fuel (copy_at buf out piece) (cursor + 2 + ln) (out + ln) in
      if ltb (length buf) (cursor + 2 + ln) then segment else if ln == 0 then skipped else moved

-- Each round moves over two bytes at least, so the buffer's length is fuel enough.
unfoldable pub decode_inline_segment_buffer : List ℕ → Decoded
decode_inline_segment_buffer buf = if length buf == 0 then done [] else compact (length buf) buf 0 0
