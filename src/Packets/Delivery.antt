-- ===== src/Packets/Delivery.antt =====
-- The packet of every request, before it is sent: what was in the buffer, the code of the operation,
-- and the items of the request.
use firebirdsql_go.Base.{
  ◌≡◌, refl, sym, ap, ◌∙◌, subst, ℤ, pos, Bool, true, false, none, some, List, [], ◌∷◌, ◌++◌,
  append-nil, append_assoc,
}
use firebirdsql_go.Bytes.{bint32_to_bytes, xdr_bytes}
use firebirdsql_go.Packets.{
  WireProtocol, ◌▷◌, append_bytes, pack_int, pack_bytes, pack_string, send, encode_string,
}
use firebirdsql_go.Packets.Requests.{
  Item, word, opaque, encode, Request, perform, opcode, items, text, trailers, when, param_items,
  ask_cont_auth, ask_crypt, ask_crypt_callback, ask_create, ask_attach, ask_drop_database,
  ask_detach, ask_info_database, ask_cancel, ask_ping, ask_transaction, ask_commit,
  ask_commit_retaining, ask_rollback, ask_rollback_retaining, ask_info_transaction, ask_open_blob,
  ask_open_blob2, ask_create_blob2, ask_get_segment, ask_put_segment, ask_close_blob,
  ask_connect_request, ask_que_events, ask_cancel_events, ask_service_attach, ask_service_detach,
  ask_service_info, ask_service_start, ask_allocate_statement, ask_free_statement,
  ask_prepare_statement, ask_execute_immediate, ask_info_sql, ask_fetch, ask_fetch_scroll,
  ask_batch_exec, ask_execute, ask_execute2,
}
use firebirdsql_go.Packets.Attachment.{
  op_cont_auth, op_crypt, op_crypt_callback, op_create, op_drop_database, op_detach,
  op_info_database, op_cancel, op_ping, op_attach,
}
use firebirdsql_go.Packets.Transactions.{
  op_transaction, op_commit, op_commit_retaining, op_rollback, op_rollback_retaining,
  op_info_transaction,
}
use firebirdsql_go.Packets.Blobs.{
  op_open_blob, op_open_blob2, op_create_blob2, op_get_segment, op_put_segment, op_close_blob,
}
use firebirdsql_go.Packets.Services.{
  op_connect_request, op_que_events, op_cancel_events, op_service_attach, op_service_detach,
  op_service_info, op_service_start,
}
use firebirdsql_go.Packets.Blocks.{resolve_client}
use firebirdsql_go.Packets.Batches.{op_batch_exec}
use firebirdsql_go.Packets.Statements.{
  op_allocate_statement, op_free_statement, op_prepare_statement, op_execute_immediate, op_info_sql,
  op_fetch, op_fetch_scroll, op_execute, op_execute2, append_execute_trailers, append_if,
}

-- `q` is `p` with these items behind what was in the buffer.
abbrev pub Packs : WireProtocol → WireProtocol → List Item → Type 0
Packs p q is = (q.sent ≡ p.sent) × (q.conn ≡ p.conn) × (q.buf ≡ p.buf ++ encode is)

append_if-Packs :
    (a b c : Bool) (x y z : ℤ) (p : WireProtocol)
    → Packs p
        (p ▷ append_if a x ▷ append_if b y ▷ append_if c z)
        (when a x ++ (when b y ++ when c z))
unfolding append_bytes
append_if-Packs true true true x y z p = (refl, refl, simp (append_assoc, append-nil))
append_if-Packs true true false x y z p = (refl, refl, simp (append_assoc, append-nil))
append_if-Packs true false true x y z p = (refl, refl, simp (append_assoc, append-nil))
append_if-Packs true false false x y z p = (refl, refl, simp append-nil)
append_if-Packs false true true x y z p = (refl, refl, simp (append_assoc, append-nil))
append_if-Packs false true false x y z p = (refl, refl, simp append-nil)
append_if-Packs false false true x y z p = (refl, refl, simp append-nil)
append_if-Packs false false false x y z p = (refl, refl, simp append-nil)

trailers-Packs : (p : WireProtocol) → Packs p (append_execute_trailers p) (trailers p)
unfolding append_execute_trailers trailers
trailers-Packs p = append_if-Packs _ _ _ (pos 0) p.cursor_flags p.max_inline_blob_size p

pub encode-append : (is js : List Item) → encode (is ++ js) ≡ encode is ++ encode js
encode-append [] js = refl
encode-append (i ∷ is) js = simp (encode-append is js, append_assoc)

-- More items behind those that are packed.
Packs-more :
    (p q r : WireProtocol) (is js : List Item) → Packs p q is → Packs q r js → Packs p r (is ++ js)
Packs-more p q r is js h k = (
  k.0 ∙ h.0,
  k.1 ∙ h.1,
  k.2
      ∙ ap (λ bs. bs ++ encode js) h.2
      ∙ append_assoc p.buf (encode is) (encode js)
      ∙ ap (λ bs. p.buf ++ bs) (sym (encode-append is js)),
)

xdr_bytes_nil : xdr_bytes [] ≡ bint32_to_bytes (pos 0)
unfolding xdr_bytes bint32_to_bytes
xdr_bytes_nil = refl

-- The packets of an execution end with the trailers.
with_trailers :
    (p q : WireProtocol) (is : List Item)
    → Packs p q is
    → trailers q ≡ trailers p
    → Packs p (append_execute_trailers q) (is ++ trailers p)
with_trailers p q is h e =
    Packs-more p q (append_execute_trailers q) is (trailers p) h
      (subst (λ ts. Packs q (append_execute_trailers q) ts) e (trailers-Packs q))

-- Each request builds its packet and sends it.
pub perform-Packs :
    (p : WireProtocol) (r : Request)
    → (q : WireProtocol) × (perform r p ≡ send q) × Packs p q (word (pos (opcode r)) ∷ items p r)
unfolding op_cont_auth op_crypt op_crypt_callback op_create op_attach op_drop_database op_detach
    op_info_database op_cancel op_ping op_transaction op_commit op_commit_retaining op_rollback
    op_rollback_retaining op_info_transaction op_open_blob op_open_blob2 op_create_blob2
    op_get_segment op_put_segment op_close_blob op_connect_request op_que_events op_cancel_events
    op_service_attach op_service_detach op_service_info op_service_start op_allocate_statement
    op_free_statement op_prepare_statement op_execute_immediate op_info_sql op_fetch op_fetch_scroll
    op_batch_exec op_execute op_execute2 pack_int pack_bytes pack_string append_bytes text trailers
    encode_string resolve_client
perform-Packs p (ask_cont_auth a n l k) = (_, refl, (refl, refl, simp (append_assoc, append-nil)))
perform-Packs p (ask_crypt plugin) = (_, refl, (refl, refl, simp (append_assoc, append-nil)))
perform-Packs p ask_crypt_callback = (_, refl, (refl, refl, simp (append_assoc, append-nil)))
perform-Packs p (ask_create d u w r) = (_, refl, (refl, refl, simp (append_assoc, append-nil)))
perform-Packs p (ask_attach h d u w r) = (_, refl, (refl, refl, simp (append_assoc, append-nil)))
perform-Packs p ask_drop_database = (_, refl, (refl, refl, simp (append_assoc, append-nil)))
perform-Packs p ask_detach = (_, refl, (refl, refl, simp (append_assoc, append-nil)))
perform-Packs p (ask_info_database bs) = (_, refl, (refl, refl, simp (append_assoc, append-nil)))
perform-Packs p (ask_cancel kind) = (_, refl, (refl, refl, simp (append_assoc, append-nil)))
perform-Packs p ask_ping = (_, refl, (refl, refl, simp append-nil))
perform-Packs p (ask_transaction tpb) = (_, refl, (refl, refl, simp (append_assoc, append-nil)))
perform-Packs p (ask_commit t) = (_, refl, (refl, refl, simp (append_assoc, append-nil)))
perform-Packs p (ask_commit_retaining t) = (_, refl, (refl, refl, simp (append_assoc, append-nil)))
perform-Packs p (ask_rollback t) = (_, refl, (refl, refl, simp (append_assoc, append-nil)))
perform-Packs p (ask_rollback_retaining t) =
    (_, refl, (refl, refl, simp (append_assoc, append-nil)))
perform-Packs p (ask_info_transaction t b) =
    (_, refl, (refl, refl, simp (append_assoc, append-nil)))
perform-Packs p (ask_open_blob id t) = (_, refl, (refl, refl, simp (append_assoc, append-nil)))
perform-Packs p (ask_open_blob2 id t) = (_, refl, (refl, refl, simp (append_assoc, append-nil)))
perform-Packs p (ask_create_blob2 t) = (_, refl, (refl, refl, simp (append_assoc, append-nil)))
perform-Packs p (ask_get_segment b) = (_, refl, (refl, refl, simp (append_assoc, append-nil)))
perform-Packs p (ask_put_segment b seg) = (_, refl, (refl, refl, simp (append_assoc, append-nil)))
perform-Packs p (ask_close_blob b) = (_, refl, (refl, refl, simp (append_assoc, append-nil)))
perform-Packs p ask_connect_request = (_, refl, (refl, refl, simp (append_assoc, append-nil)))
perform-Packs p (ask_que_events a epb id) = (_, refl, (refl, refl, simp (append_assoc, append-nil)))
perform-Packs p (ask_cancel_events id) = (_, refl, (refl, refl, simp (append_assoc, append-nil)))
perform-Packs p ask_service_attach = (_, refl, (refl, refl, simp (append_assoc, append-nil)))
perform-Packs p ask_service_detach = (_, refl, (refl, refl, simp (append_assoc, append-nil)))
perform-Packs p (ask_service_info spb srb n) =
    (_, refl, (refl, refl, simp (append_assoc, append-nil)))
perform-Packs p (ask_service_start spb) = (_, refl, (refl, refl, simp (append_assoc, append-nil)))
perform-Packs p ask_allocate_statement = (_, refl, (refl, refl, simp (append_assoc, append-nil)))
perform-Packs p (ask_free_statement s m) = (_, refl, (refl, refl, simp (append_assoc, append-nil)))
perform-Packs p (ask_prepare_statement s t q) =
    (_, refl, (refl, refl, simp (append_assoc, append-nil)))
perform-Packs p (ask_execute_immediate t q) =
    (_, refl, (refl, refl, simp (append_assoc, append-nil)))
perform-Packs p (ask_info_sql s vars) = (_, refl, (refl, refl, simp (append_assoc, append-nil)))
perform-Packs p (ask_fetch s blr) = (_, refl, (refl, refl, simp (append_assoc, append-nil)))
perform-Packs p (ask_fetch_scroll s blr d o n) =
    (_, refl, (refl, refl, simp (append_assoc, append-nil)))
perform-Packs p (ask_batch_exec s t) = (_, refl, (refl, refl, simp (append_assoc, append-nil)))
perform-Packs p (ask_execute s t none) =
    let q =
      p
      ▷ pack_int (pos (opcode (ask_execute s t none)))
      ▷ pack_int s
      ▷ pack_int t
      ▷ pack_int (pos 0)
      ▷ pack_int (pos 0)
      ▷ pack_int (pos 0) in
    (
      append_execute_trailers q,
      refl,
      with_trailers p q
          (word (pos (opcode (ask_execute s t none))) ∷ word s ∷ word t ∷ param_items none ([]))
          (refl, refl, simp (xdr_bytes_nil, append_assoc, append-nil)) refl,
    )
perform-Packs p (ask_execute s t (some (blr, values))) =
    let q =
      p
      ▷ pack_int (pos (opcode (ask_execute s t (some (blr, values)))))
      ▷ pack_int s
      ▷ pack_int t
      ▷ pack_bytes blr
      ▷ pack_int (pos 0)
      ▷ pack_int (pos 1)
      ▷ append_bytes values in
    (
      append_execute_trailers q,
      refl,
      with_trailers p q
          (word (pos (opcode (ask_execute s t (some (blr, values)))))
            ∷ word s
            ∷ word t
            ∷ param_items (some (blr, values)) ([]))
          (refl, refl, simp (append_assoc, append-nil)) refl,
    )
perform-Packs p (ask_execute2 s t none out) =
    let q =
      p
      ▷ pack_int (pos (opcode (ask_execute2 s t none out)))
      ▷ pack_int s
      ▷ pack_int t
      ▷ pack_int (pos 0)
      ▷ pack_int (pos 0)
      ▷ pack_int (pos 0)
      ▷ pack_bytes out
      ▷ pack_int (pos 0) in
    (
      append_execute_trailers q,
      refl,
      with_trailers p q
          (word (pos (opcode (ask_execute2 s t none out)))
            ∷ word s
            ∷ word t
            ∷ param_items none (opaque out ∷ word (pos 0) ∷ []))
          (refl, refl, simp (xdr_bytes_nil, append_assoc, append-nil)) refl,
    )
perform-Packs p (ask_execute2 s t (some (blr, values)) out) =
    let q =
      p
      ▷ pack_int (pos (opcode (ask_execute2 s t (some (blr, values)) out)))
      ▷ pack_int s
      ▷ pack_int t
      ▷ pack_bytes blr
      ▷ pack_int (pos 0)
      ▷ pack_int (pos 1)
      ▷ append_bytes values
      ▷ pack_bytes out
      ▷ pack_int (pos 0) in
    (
      append_execute_trailers q,
      refl,
      with_trailers p q
          (word (pos (opcode (ask_execute2 s t (some (blr, values)) out)))
            ∷ word s
            ∷ word t
            ∷ param_items (some (blr, values)) (opaque out ∷ word (pos 0) ∷ []))
          (refl, refl, simp (append_assoc, append-nil)) refl,
    )
