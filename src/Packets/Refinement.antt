-- ===== src/Packets/Refinement.antt =====
-- The requests against a server that reads them.
use firebirdsql_go.Base.{
  ℕ, ◌≡◌, ◌⊎◌, inl, inr, refl, sym, ap, subst, ◌∙◌, arith, pos, All, none, some, List, [], ◌∷◌,
  ◌++◌, map, length, append_assoc, replicate,
}
use firebirdsql_go.Bytes.{xdr_padding, blr_padding, bint32_to_bytes}
use firebirdsql_go.Wire.{ok, return, ◌>>=◌, recv_packets, recv_alignment, recv_int32}
use firebirdsql_go.Wire.Receive.{
  bind_ok, recv_packets_exact, recv_int32-word, recv_alignment_padded, xdr_bytes-word,
}
use firebirdsql_go.Packets.{WireProtocol, bad_conn}
use firebirdsql_go.Packets.Sending.{IsReliable, Accepts, Delivers, send_reliable, send_any}
use firebirdsql_go.Packets.Requests.{
  Item, word, opaque, quad, segment, raw, item_bytes, encode, Fits, Request, perform, message,
}
use firebirdsql_go.Packets.Delivery.{perform-Packs}
use firebirdsql_go.Packets.Server.{
  kind_of, opaque_kind, segment_kind, read_item, read_items, recv_counted,
}

padding_agrees : (n : ℕ) → blr_padding n ≡ xdr_padding n
padding_agrees n = ground arith

read_item-bytes :
    (i : Item) (rest : List ℕ)
    → Fits i
    → read_item (kind_of i) (item_bytes i ++ rest) ≡ ok (i, rest)
unfolding read_item recv_counted
read_item-bytes (word z) rest h =
    bind_ok recv_int32 (λ v. return (word v)) _ (recv_int32-word z rest h)
read_item-bytes (opaque bs) rest h =
    ap (read_item opaque_kind) (
      ap (λ t. t ++ rest) (xdr_bytes-word bs (omega arith))
      ∙ append_assoc (bint32_to_bytes (pos (length bs))) _ rest)
    ∙ bind_ok recv_int32 (λ ln. recv_counted ln >>= λ v. return (opaque v)) _
        (recv_int32-word (pos (length bs)) _ h)
    ∙ bind_ok (recv_alignment (length bs)) (λ v. return (opaque v)) _
        (recv_alignment_padded bs rest)
read_item-bytes (quad bs) rest h =
    bind_ok (recv_packets 8) (λ v. return (quad v)) _ (recv_packets_exact bs rest h)
read_item-bytes (segment bs) rest h =
    ap (λ n. read_item (segment_kind (length bs)) ((bs ++ replicate n 0) ++ rest))
      (padding_agrees (length bs))
    ∙ bind_ok (recv_alignment (length bs)) (λ v. return (segment v)) _
        (recv_alignment_padded bs rest)
read_item-bytes (raw bs) rest h =
    bind_ok (recv_packets (length bs)) (λ v. return (raw v)) _ (recv_packets_exact bs rest refl)

pub read_items-encode :
    (is : List Item) (rest : List ℕ)
    → All Fits is
    → read_items (map kind_of is) (encode is ++ rest) ≡ ok (is, rest)
unfolding read_items
read_items-encode [] rest h = refl
read_items-encode (i ∷ is) rest h =
    ap (read_items (map kind_of (i ∷ is))) (append_assoc (item_bytes i) (encode is) rest)
    ∙ bind_ok (read_item (kind_of i)) (λ v. read_items (map kind_of is) >>= λ vs. return (v ∷ vs)) _
        (read_item-bytes i (encode is ++ rest) h.0)
    ∙ bind_ok (read_items (map kind_of is)) (λ vs. return (i ∷ vs)) _
        (read_items-encode is rest h.1)

-- The bytes that go out if no write fails.
pub packet_sent :
    (p : WireProtocol) (r : Request)
    → IsReliable p
    → ((perform r p).1 ≡ none)
      × ((perform r p).0.buf ≡ [])
      × ((perform r p).0.sent ≡ p.sent ++ (p.buf ++ encode (message p r)))
packet_sent p r reliable =
    let (q, performed, (sent, conn, buf)) = perform-Packs p r in
    let reliable_too : IsReliable q = subst (λ c. All Accepts c.writes) (sym conn) reliable in
    let (no_error, all_sent, emptied) = send_reliable q reliable_too in
    (
      ap (λ t. t.1) performed ∙ no_error,
      ap (λ t. t.0.buf) performed ∙ emptied,
      ap (λ t. t.0.sent) performed
          ∙ all_sent
          ∙ ap (λ t. t ++ q.buf) sent
          ∙ ap (λ t. p.sent ++ t) buf,
    )

-- If no write of the connection fails, in whatever pieces it takes the bytes, then each request
-- reports no error, leaves the buffer empty, and adds to what was sent the old buffer and one
-- packet, from which a server that knows the kinds of the items reads the code of the operation
-- and exactly the items of the request, whatever follows. Words are int32, counted strings are
-- shorter than 2 ^ 31 bytes, and the id of a BLOB has eight bytes.
pub requests_delivered :
    (p : WireProtocol) (r : Request)
    → IsReliable p
    → All Fits (message p r)
    → (packet : List ℕ) × ((perform r p).1 ≡ none)
      × ((perform r p).0.buf ≡ [])
      × ((perform r p).0.sent ≡ p.sent ++ (p.buf ++ packet))
      × ((rest : List ℕ)
          → read_items (map kind_of (message p r)) (packet ++ rest) ≡ ok (message p r, rest))
requests_delivered p r reliable fits =
    let (no_error, emptied, sent) = packet_sent p r reliable in
    (
      encode (message p r),
      no_error,
      emptied,
      sent,
      λ rest. read_items-encode (message p r) rest fits,
    )

-- Whatever the writes and the flush of the connection do, it has taken a front part of the old
-- buffer and the packet of the request, the buffer is empty afterwards, the writes leave nothing out
-- if there is no error, and the only error is a bad connection. What it took has gone out if the
-- flush works, and otherwise no more than the flush let through. If no write fails there is no
-- error, also when the flush fails.
pub failed_send_leaves_prefix :
    (p : WireProtocol) (r : Request)
    → (taken : List ℕ) × (rest : List ℕ) × (taken ++ rest ≡ p.buf ++ encode (message p r))
      × ((perform r p).0.sent ≡ p.sent ++ taken)
      × ((perform r p).0.buf ≡ [])
      × ((perform r p).1 ≡ none → rest ≡ [])
      × (((perform r p).1 ≡ none) ⊎ ((perform r p).1 ≡ some bad_conn))
      × Delivers p.conn (p.sent ++ taken) (perform r p).0.conn.delivered
      × (IsReliable p → (perform r p).1 ≡ none)
failed_send_leaves_prefix p r =
    let (q, performed, (sent, conn, buf)) = perform-Packs p r in
    let (taken, rest, split, took, emptied, all, cases, delivers) = send_any q in
    (
      taken,
      rest,
      split ∙ buf,
      ap (λ t. t.0.sent) performed ∙ took ∙ ap (λ t. t ++ taken) sent,
      ap (λ t. t.0.buf) performed ∙ emptied,
      λ h. all (sym (ap (λ t. t.1) performed) ∙ h),
      elim cases [
        | inl h ↦ inl (ap (λ t. t.1) performed ∙ h)
        | inr h ↦ inr (ap (λ t. t.1) performed ∙ h)
      ],
      subst (λ c. Delivers c (p.sent ++ taken) (perform r p).0.conn.delivered) conn
          (subst (λ s. Delivers q.conn (s ++ taken) (perform r p).0.conn.delivered) sent
            (subst (λ t. Delivers q.conn (q.sent ++ taken) t.0.conn.delivered) (sym performed)
              delivers)),
      λ reliable. (packet_sent p r reliable).0,
    )
