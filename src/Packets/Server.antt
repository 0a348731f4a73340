-- ===== src/Packets/Server.antt =====
-- A server's side of the packets: it reads the code of the operation, and then the items that this
-- operation has.
use firebirdsql_go.Base.{
  ℕ, ◌==◌, ℤ, pos, negsuc, Option, none, some, List, [], ◌∷◌, length, if◌then◌else◌,
}
use firebirdsql_go.Wire.{
  Recv, bad_length, malformed, ◌>>=◌, return, fault, recv_packets, recv_alignment, recv_int32,
}
use firebirdsql_go.Packets.Consts
use firebirdsql_go.Packets.Requests.{Item, word, opaque, quad, segment, raw}

pub data Kind : Type 0 where
  word_kind : Kind
  opaque_kind : Kind
  quad_kind : Kind
  segment_kind : ℕ → Kind
  raw_kind : ℕ → Kind

abbrev pub kind_of : Item → Kind
kind_of (word z) = word_kind
kind_of (opaque bs) = opaque_kind
kind_of (quad bs) = quad_kind
kind_of (segment bs) = segment_kind (length bs)
kind_of (raw bs) = raw_kind (length bs)

unfoldable pub recv_counted : ℤ → Recv (List ℕ)
recv_counted (pos n) = recv_alignment n
recv_counted (negsuc n) = fault bad_length

unfoldable pub read_item : Kind → Recv Item
unfolding recv_counted
read_item word_kind = do z ← recv_int32; return (word z)
read_item opaque_kind = do ln ← recv_int32; bs ← recv_counted ln; return (opaque bs)
read_item quad_kind = do bs ← recv_packets 8; return (quad bs)
read_item (segment_kind n) = do bs ← recv_alignment n; return (segment bs)
read_item (raw_kind n) = do bs ← recv_packets n; return (raw bs)

unfoldable pub read_items : List Kind → Recv (List Item)
read_items [] = return []
read_items (k ∷ ks) = do i ← read_item k; is ← read_items ks; return (i ∷ is)

-- The items of each operation whose packet has the same ones every time: of all but the executions
-- and the segments.
abbrev pub layouts : List (ℕ × List Kind)
layouts =
    (Consts.op_cont_auth, opaque_kind ∷ opaque_kind ∷ opaque_kind ∷ opaque_kind ∷ [])
    ∷ (Consts.op_crypt, opaque_kind ∷ opaque_kind ∷ [])
    ∷ (Consts.op_crypt_key_callback, word_kind ∷ word_kind ∷ [])
    ∷ (Consts.op_create, word_kind ∷ opaque_kind ∷ opaque_kind ∷ [])
    ∷ (Consts.op_attach, word_kind ∷ opaque_kind ∷ opaque_kind ∷ [])
    ∷ (Consts.op_drop_database, word_kind ∷ [])
    ∷ (Consts.op_detach, word_kind ∷ [])
    ∷ (Consts.op_info_database, word_kind ∷ word_kind ∷ opaque_kind ∷ word_kind ∷ [])
    ∷ (Consts.op_cancel, word_kind ∷ [])
    ∷ (Consts.op_ping, [])
    ∷ (Consts.op_transaction, word_kind ∷ opaque_kind ∷ [])
    ∷ (Consts.op_commit, word_kind ∷ [])
    ∷ (Consts.op_commit_retaining, word_kind ∷ [])
    ∷ (Consts.op_rollback, word_kind ∷ [])
    ∷ (Consts.op_rollback_retaining, word_kind ∷ [])
    ∷ (Consts.op_info_transaction, word_kind ∷ word_kind ∷ opaque_kind ∷ word_kind ∷ [])
    ∷ (Consts.op_open_blob, word_kind ∷ quad_kind ∷ [])
    ∷ (Consts.op_open_blob2, word_kind ∷ word_kind ∷ quad_kind ∷ [])
    ∷ (Consts.op_create_blob2, word_kind ∷ word_kind ∷ word_kind ∷ word_kind ∷ [])
    ∷ (Consts.op_get_segment, word_kind ∷ word_kind ∷ word_kind ∷ [])
    ∷ (Consts.op_close_blob, word_kind ∷ [])
    ∷ (Consts.op_connect_request, word_kind ∷ word_kind ∷ word_kind ∷ [])
    ∷ (Consts.op_que_events, word_kind ∷ opaque_kind ∷ word_kind ∷ word_kind ∷ word_kind ∷ [])
    ∷ (Consts.op_cancel_events, word_kind ∷ word_kind ∷ [])
    ∷ (Consts.op_service_attach, word_kind ∷ opaque_kind ∷ opaque_kind ∷ [])
    ∷ (Consts.op_service_detach, word_kind ∷ [])
    ∷ (Consts.op_service_info, word_kind ∷ word_kind ∷ opaque_kind ∷ opaque_kind ∷ word_kind ∷ [])
    ∷ (Consts.op_service_start, word_kind ∷ word_kind ∷ opaque_kind ∷ [])
    ∷ (Consts.op_allocate_statement, word_kind ∷ [])
    ∷ (Consts.op_free_statement, word_kind ∷ word_kind ∷ [])
    ∷ (
      Consts.op_prepare_statement,
      word_kind ∷ word_kind ∷ word_kind ∷ opaque_kind ∷ opaque_kind ∷ word_kind ∷ [],
    )
    ∷ (
      Consts.op_execute_immediate,
      word_kind ∷ word_kind ∷ word_kind ∷ opaque_kind ∷ opaque_kind ∷ word_kind ∷ [],
    )
    ∷ (Consts.op_info_sql, word_kind ∷ word_kind ∷ opaque_kind ∷ word_kind ∷ [])
    ∷ (Consts.op_fetch, word_kind ∷ opaque_kind ∷ word_kind ∷ word_kind ∷ [])
    ∷ (
      Consts.op_fetch_scroll,
      word_kind ∷ opaque_kind ∷ word_kind ∷ word_kind ∷ word_kind ∷ word_kind ∷ [],
    )
    ∷ (Consts.op_batch_exec, word_kind ∷ word_kind ∷ [])
    ∷ []

abbrev pub find : List (ℕ × List Kind) → ℕ → Option (List Kind)
find [] op = none
find ((code, ks) ∷ rest) op = if code == op then some ks else find rest op

abbrev pub layout : ℕ → Option (List Kind)
layout op = find layouts op

unfoldable pub expect : Option (List Kind) → Recv (List Item)
expect none = fault malformed
expect (some ks) = read_items ks

unfoldable pub by_code : ℤ → Recv (ℤ × List Item)
unfolding expect
by_code (negsuc n) = fault malformed
by_code (pos op) = do is ← expect (layout op); return (pos op, is)

unfoldable pub receive_request : Recv (ℤ × List Item)
unfolding by_code
receive_request = do op ← recv_int32; by_code op
