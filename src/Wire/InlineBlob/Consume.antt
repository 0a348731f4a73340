-- ===== src/Wire/InlineBlob/Consume.antt =====
-- `consumeInlineBlobsStarting` on what any server sends.
use firebirdsql_go.Base.{
  ℕ, zero, suc, ◌+◌, ◌≤◌, ◌<◌, ◌≡◌, arith, ℤ, false, Option, length, if_cases,
}
use firebirdsql_go.Blob.Cache.{InlineBlobCache, add}
use firebirdsql_go.Blob.Cache.Accounting.{Accounted, add-Accounted}
use firebirdsql_go.Wire.{Recv, Stream, recv_int32}
use firebirdsql_go.Wire.Safety.{Safe, bind-Safe, weaken, recv_int32-Safe}
use firebirdsql_go.Wire.InlineBlob.{
  parse_inline_blob_payload, is_inline_blob, consume, consume_inline_blobs,
}
use firebirdsql_go.Wire.InlineBlob.Safety.{parse_inline_blob_payload-Safe}

-- Another packet's opcode, and a cache whose size is exact and within its cap.
abbrev pub Stopped : Option ℕ → Stream → ℤ × InlineBlobCache → Stream → Type 0
Stopped o s r rest = (is_inline_blob r.0 ≡ false) × Accounted o r.1 × (length rest ≤ length s)

consume-Safe :
    {o : Option ℕ} (fuel : ℕ) (op : ℤ) (c : InlineBlobCache) (s : Stream)
    → Accounted o c
    → length s < fuel
    → Safe (Stopped o s) (consume fuel op c s)
unfolding consume
consume-Safe zero op c s v h = absurd (omega arith)
consume-Safe {o = o} (suc fuel) op c s v h =
    if_cases {A = Recv (ℤ × InlineBlobCache)} (λ m. Safe (Stopped o s) (m s)) (is_inline_blob op)
      (λ e.
        bind-Safe (Stopped o s) parse_inline_blob_payload _ s (parse_inline_blob_payload-Safe s)
          λ blob s1 p1.
            let c' = (add c blob.tx_handle blob.blob_id blob.content).0 in
            bind-Safe (Stopped o s) recv_int32 (λ next. consume fuel next c') s1
              (recv_int32-Safe s1)
              λ next s2 p2.
                weaken (consume fuel next c' s2)
                  (λ r rest t. (t.0, t.1, omega (arith, t.2, p1, p2)))
                  (consume-Safe fuel next c' s2
                    (add-Accounted c blob.tx_handle blob.blob_id blob.content v)
                    (omega (arith, h, p1, p2))))
      (λ e. (e, v, omega arith))

-- On every stream the loop ends, without a panic. If it returns, then at an opcode of another packet,
-- and a cache whose size was exact and within its cap still has such a size.
consume_inline_blobs-Safe :
    {o : Option ℕ} (op : ℤ) (c : InlineBlobCache) (s : Stream)
    → Accounted o c
    → Safe (Stopped o s) (consume_inline_blobs op c s)
unfolding consume_inline_blobs
consume_inline_blobs-Safe op c s v = consume-Safe (length s + 1) op c s v (omega arith)
