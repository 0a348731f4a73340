-- ===== src/Blob/Tests.antt =====
-- Segment buffers at concrete values.
use firebirdsql_go.Base.{ℕ, ◌≡◌, refl, arith, List, [], ◌∷◌, pos, true}
use firebirdsql_go.Bytes.{bytes_to_uint16}
use firebirdsql_go.Blob.{done, segment, append_segments, compact, decode_inline_segment_buffer}
use firebirdsql_go.Blob.Segments.{frames, concat, Ends, append_segments-frames}
use firebirdsql_go.Blob.InPlace.{decode_inline-append_segments, decode_inline-Ends}
use firebirdsql_go.Blob.Cache.{
  InlineBlobCache, cap, new_inline_blob_cache, add, get_and_remove, clear_tx, find, put, erase,
}
use firebirdsql_go.Blob.Cache.Accounting.{
  CacheOp, adds, gets, clears_tx, run_ops, held, UnderCap, cache_size_exact,
}

abbrev framed : List ℕ
framed = 2 ∷ 0 ∷ 10 ∷ 11 ∷ 0 ∷ 0 ∷ 1 ∷ 0 ∷ 12 ∷ []

two_segments : decode_inline_segment_buffer framed ≡ done (10 ∷ 11 ∷ 12 ∷ [])
unfolding decode_inline_segment_buffer compact bytes_to_uint16
two_segments = refl

too_long : decode_inline_segment_buffer (2 ∷ 0 ∷ 10 ∷ []) ≡ segment
unfolding decode_inline_segment_buffer compact bytes_to_uint16
too_long = refl

abbrev pieces : List (List ℕ)
pieces = (10 ∷ 11 ∷ []) ∷ [] ∷ (12 ∷ []) ∷ []

append_segments-frames_example :
    append_segments 9 (frames pieces) (1 ∷ []) ≡ done (1 ∷ concat pieces)
append_segments-frames_example =
    append_segments-frames 9 pieces (1 ∷ []) (omega arith, (omega arith, (omega arith, tt)))
      (omega arith)

decode_inline-append_segments_example :
    decode_inline_segment_buffer framed ≡ append_segments 9 framed []
decode_inline-append_segments_example = decode_inline-append_segments framed

decode_inline-Ends_example : Ends (decode_inline_segment_buffer (9 ∷ 9 ∷ 9 ∷ []))
decode_inline-Ends_example = decode_inline-Ends (9 ∷ 9 ∷ 9 ∷ [])

abbrev calls : List CacheOp
calls =
    adds (pos 1) (pos 7) (1 ∷ 2 ∷ [])
    ∷ adds (pos 1) (pos 8) (3 ∷ 4 ∷ 5 ∷ [])
    ∷ adds (pos 2) (pos 7) (6 ∷ [])
    ∷ gets (pos 1) (pos 7)
    ∷ clears_tx (pos 2)
    ∷ []

-- The second blob is over the cap, and the third one fits.
calls_run :
    run_ops (new_inline_blob_cache (pos 4)) calls
    ≡ record { max_size = pos 4; size = 0; by_tx = [] }
unfolding new_inline_blob_cache add get_and_remove clear_tx find put erase
calls_run = refl

cache_size_exact_example :
    let c = run_ops (new_inline_blob_cache (pos 4)) calls in
    (c.size ≡ held c) × UnderCap (cap (pos 4)) c.size
cache_size_exact_example = cache_size_exact (pos 4) calls

abbrev one_blob : InlineBlobCache
one_blob = record { max_size = pos 4; size = 1; by_tx = (pos 2, (pos 7, 6 ∷ []) ∷ []) ∷ [] }

taken : (add one_blob (pos 2) (pos 8) (1 ∷ 2 ∷ [])).1 ≡ true
unfolding add find put
taken = refl
