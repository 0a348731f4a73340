-- ===== src/Packets/Requests.antt =====
-- What each request says, apart from the code that packs it: the code of the operation, and the XDR
-- items behind it.
use firebirdsql_go.Base.{
  i32, u32, Bool, ℕ, ◌<◌, ◌≡◌, ◌^◌, ℤ, pos, Option, none, some, List, [], ◌∷◌, ◌++◌, length,
  replicate, IsI32, leb_ℤ, bytes_of, if◌then◌else◌,
}
use firebirdsql_go.Bytes.{bint32_to_bytes, xdr_bytes, blr_padding}
use firebirdsql_go.Texts.{hex_encode}
use firebirdsql_go.Packets.{WireProtocol, Send, encode_string, buffer_len, int32_of}
use firebirdsql_go.Packets.Consts
use firebirdsql_go.Packets.Blocks.{Host, resolve_client, create_dpb, attach_dpb, service_spb}
use firebirdsql_go.Packets.Attachment.{
  op_cont_auth, op_crypt, op_crypt_callback, op_create, op_drop_database, op_detach,
  op_info_database, op_cancel, op_ping, op_attach,
}
use firebirdsql_go.Packets.Transactions.{
  op_transaction, op_commit, op_commit_retaining, op_rollback, op_rollback_retaining,
  op_info_transaction,
}
use firebirdsql_go.Packets.Blobs.{
  op_open_blob, op_open_blob2, op_create_blob2, op_get_segment, op_put_segment, op_close_blob,
}
use firebirdsql_go.Packets.Services.{
  op_connect_request, op_que_events, op_cancel_events, op_service_attach, op_service_detach,
  op_service_info, op_service_start,
}
use firebirdsql_go.Packets.Statements.{
  op_allocate_statement, op_free_statement, op_prepare_statement, op_execute_immediate, op_info_sql,
  op_fetch, op_fetch_scroll, op_execute, op_execute2, Params, info_sql_select_describe_vars,
}
use firebirdsql_go.Packets.Batches.{op_batch_exec}

-- A word, a counted byte string, the eight bytes of a BLOB's id, a segment whose length was said
-- before, and bytes whose length follows from what was said before.
pub data Item : Type 0 where
  word : ℤ → Item
  opaque : List ℕ → Item
  quad : List ℕ → Item
  segment : List ℕ → Item
  raw : List ℕ → Item

abbrev pub item_bytes : Item → List ℕ
item_bytes (word z) = bint32_to_bytes z
item_bytes (opaque bs) = xdr_bytes bs
item_bytes (quad bs) = bs
item_bytes (segment bs) = bs ++ replicate (blr_padding (length bs)) 0
item_bytes (raw bs) = bs

abbrev pub encode : List Item → List ℕ
encode [] = []
encode (i ∷ is) = item_bytes i ++ encode is

-- The values that an item can hold.
abbrev pub Fits : Item → Type 0
Fits (word z) = IsI32 z
Fits (opaque bs) = length bs < 2 ^ 31
Fits (quad bs) = length bs ≡ 8
Fits (segment bs) = Unit
Fits (raw bs) = Unit

pub data Request : Type 0 where
  ask_cont_auth : List ℕ → List ℕ → List ℕ → List ℕ → Request
  ask_crypt : List ℕ → Request
  ask_crypt_callback : Request
  ask_create : List ℕ → List ℕ → List ℕ → List ℕ → Request
  ask_attach : Host → List ℕ → List ℕ → List ℕ → List ℕ → Request
  ask_drop_database : Request
  ask_detach : Request
  ask_info_database : List ℕ → Request
  ask_cancel : ℤ → Request
  ask_ping : Request
  ask_transaction : List ℕ → Request
  ask_commit : ℤ → Request
  ask_commit_retaining : ℤ → Request
  ask_rollback : ℤ → Request
  ask_rollback_retaining : ℤ → Request
  ask_info_transaction : ℤ → List ℕ → Request
  ask_open_blob : List ℕ → ℤ → Request
  ask_open_blob2 : List ℕ → ℤ → Request
  ask_create_blob2 : ℤ → Request
  ask_get_segment : ℤ → Request
  ask_put_segment : ℤ → List ℕ → Request
  ask_close_blob : ℤ → Request
  ask_connect_request : Request
  ask_que_events : ℤ → List ℕ → ℤ → Request
  ask_cancel_events : ℤ → Request
  ask_service_attach : Request
  ask_service_detach : Request
  ask_service_info : List ℕ → List ℕ → ℤ → Request
  ask_service_start : List ℕ → Request
  ask_allocate_statement : Request
  ask_free_statement : ℤ → ℤ → Request
  ask_prepare_statement : ℤ → ℤ → List ℕ → Request
  ask_execute_immediate : ℤ → List ℕ → Request
  ask_info_sql : ℤ → List ℕ → Request
  ask_fetch : ℤ → List ℕ → Request
  ask_fetch_scroll : ℤ → List ℕ → ℤ → ℤ → ℤ → Request
  ask_batch_exec : ℤ → ℤ → Request
  ask_execute : ℤ → ℤ → Option (List ℕ × List ℕ) → Request
  ask_execute2 : ℤ → ℤ → Option (List ℕ × List ℕ) → List ℕ → Request

-- Parameters that could be converted.
abbrev pub converted : Option (List ℕ × List ℕ) → Params
converted none = none
converted (some ps) = some (some ps)

abbrev pub perform : Request → Send
perform (ask_cont_auth a n l k) = op_cont_auth a n l k
perform (ask_crypt plugin) = op_crypt plugin
perform ask_crypt_callback = op_crypt_callback
perform (ask_create d u w r) = op_create d u w r
perform (ask_attach h d u w r) = op_attach h d u w r
perform ask_drop_database = op_drop_database
perform ask_detach = op_detach
perform (ask_info_database bs) = op_info_database bs
perform (ask_cancel kind) = op_cancel kind
perform ask_ping = op_ping
perform (ask_transaction tpb) = op_transaction tpb
perform (ask_commit t) = op_commit t
perform (ask_commit_retaining t) = op_commit_retaining t
perform (ask_rollback t) = op_rollback t
perform (ask_rollback_retaining t) = op_rollback_retaining t
perform (ask_info_transaction t b) = op_info_transaction t b
perform (ask_open_blob id t) = op_open_blob id t
perform (ask_open_blob2 id t) = op_open_blob2 id t
perform (ask_create_blob2 t) = op_create_blob2 t
perform (ask_get_segment b) = op_get_segment b
perform (ask_put_segment b seg) = op_put_segment b seg
perform (ask_close_blob b) = op_close_blob b
perform ask_connect_request = op_connect_request
perform (ask_que_events a epb id) = op_que_events a epb id
perform (ask_cancel_events id) = op_cancel_events id
perform ask_service_attach = op_service_attach
perform ask_service_detach = op_service_detach
perform (ask_service_info spb srb n) = op_service_info spb srb n
perform (ask_service_start spb) = op_service_start spb
perform ask_allocate_statement = op_allocate_statement
perform (ask_free_statement s m) = op_free_statement s m
perform (ask_prepare_statement s t q) = op_prepare_statement s t q
perform (ask_execute_immediate t q) = op_execute_immediate t q
perform (ask_info_sql s vars) = op_info_sql s vars
perform (ask_fetch s blr) = op_fetch s blr
perform (ask_fetch_scroll s blr d o n) = op_fetch_scroll s blr d o n
perform (ask_batch_exec s t) = op_batch_exec s t
perform (ask_execute s t ps) = op_execute s t (converted ps)
perform (ask_execute2 s t ps out) = op_execute2 s t (converted ps) out

abbrev pub opcode : Request → ℕ
opcode (ask_cont_auth _ _ _ _) = Consts.op_cont_auth
opcode (ask_crypt _) = Consts.op_crypt
opcode ask_crypt_callback = Consts.op_crypt_key_callback
opcode (ask_create _ _ _ _) = Consts.op_create
opcode (ask_attach _ _ _ _ _) = Consts.op_attach
opcode ask_drop_database = Consts.op_drop_database
opcode ask_detach = Consts.op_detach
opcode (ask_info_database _) = Consts.op_info_database
opcode (ask_cancel _) = Consts.op_cancel
opcode ask_ping = Consts.op_ping
opcode (ask_transaction _) = Consts.op_transaction
opcode (ask_commit _) = Consts.op_commit
opcode (ask_commit_retaining _) = Consts.op_commit_retaining
opcode (ask_rollback _) = Consts.op_rollback
opcode (ask_rollback_retaining _) = Consts.op_rollback_retaining
opcode (ask_info_transaction _ _) = Consts.op_info_transaction
opcode (ask_open_blob _ _) = Consts.op_open_blob
opcode (ask_open_blob2 _ _) = Consts.op_open_blob2
opcode (ask_create_blob2 _) = Consts.op_create_blob2
opcode (ask_get_segment _) = Consts.op_get_segment
opcode (ask_put_segment _ _) = Consts.op_put_segment
opcode (ask_close_blob _) = Consts.op_close_blob
opcode ask_connect_request = Consts.op_connect_request
opcode (ask_que_events _ _ _) = Consts.op_que_events
opcode (ask_cancel_events _) = Consts.op_cancel_events
opcode ask_service_attach = Consts.op_service_attach
opcode ask_service_detach = Consts.op_service_detach
opcode (ask_service_info _ _ _) = Consts.op_service_info
opcode (ask_service_start _) = Consts.op_service_start
opcode ask_allocate_statement = Consts.op_allocate_statement
opcode (ask_free_statement _ _) = Consts.op_free_statement
opcode (ask_prepare_statement _ _ _) = Consts.op_prepare_statement
opcode (ask_execute_immediate _ _) = Consts.op_execute_immediate
opcode (ask_info_sql _ _) = Consts.op_info_sql
opcode (ask_fetch _ _) = Consts.op_fetch
opcode (ask_fetch_scroll _ _ _ _ _) = Consts.op_fetch_scroll
opcode (ask_batch_exec _ _) = Consts.op_batch_exec
opcode (ask_execute _ _ _) = Consts.op_execute
opcode (ask_execute2 _ _ _ _) = Consts.op_execute2

-- A text in the character set of the connection.
unfoldable pub text : WireProtocol → List ℕ → Item
text p s = opaque (encode_string p s)

-- What is asked for, or the default.
abbrev pub info_length : ℤ → ℤ
info_length n = if leb_ℤ n (pos 0) then buffer_len else n

abbrev pub when : Bool → ℤ → List Item
when b z = if b then word z ∷ [] else []

-- The timeout, the flags of the cursor and the size of inline BLOBs, by the protocol's version.
unfoldable pub trailers : WireProtocol → List Item
trailers p =
    when (leb_ℤ (pos 16) p.protocol_version) (pos 0)
    ++ (when (leb_ℤ (pos 18) p.protocol_version) p.cursor_flags
        ++ when (leb_ℤ (pos 19) p.protocol_version) p.max_inline_blob_size)

-- No message, or one of the given format.
abbrev pub param_items : Option (List ℕ × List ℕ) → List Item → List Item
param_items none is = opaque [] ∷ word (pos 0) ∷ word (pos 0) ∷ is
param_items (some (blr, values)) is = opaque blr ∷ word (pos 0) ∷ word (pos 1) ∷ raw values ∷ is

abbrev pub items : WireProtocol → Request → List Item
items p (ask_cont_auth a n l k) = text p (hex_encode a) ∷ text p n ∷ text p l ∷ text p k ∷ []
items p (ask_crypt plugin) = text p plugin ∷ text p (bytes_of "Symmetric") ∷ []
items p ask_crypt_callback = word (pos 0) ∷ word buffer_len ∷ []
items p (ask_create d u w r) = word (pos 0) ∷ text p d ∷ opaque (create_dpb u w r p) ∷ []
items p (ask_attach h d u w r) =
    let q = resolve_client h p in word (pos 0) ∷ text p d ∷ opaque (attach_dpb h u w r q) ∷ []
items p ask_drop_database = word p.db_handle ∷ []
items p ask_detach = word p.db_handle ∷ []
items p (ask_info_database bs) = word p.db_handle ∷ word (pos 0) ∷ opaque bs ∷ word buffer_len ∷ []
items p (ask_cancel kind) = word (i32 (u32 kind)) ∷ []
items p ask_ping = []
items p (ask_transaction tpb) = word p.db_handle ∷ opaque tpb ∷ []
items p (ask_commit t) = word t ∷ []
items p (ask_commit_retaining t) = word t ∷ []
items p (ask_rollback t) = word t ∷ []
items p (ask_rollback_retaining t) = word t ∷ []
items p (ask_info_transaction t b) = word t ∷ word (pos 0) ∷ opaque b ∷ word buffer_len ∷ []
items p (ask_open_blob id t) = word t ∷ quad id ∷ []
items p (ask_open_blob2 id t) = word (pos 0) ∷ word t ∷ quad id ∷ []
items p (ask_create_blob2 t) = word (pos 0) ∷ word t ∷ word (pos 0) ∷ word (pos 0) ∷ []
items p (ask_get_segment b) = word b ∷ word (pos 32000) ∷ word (pos 0) ∷ []
items p (ask_put_segment b seg) =
    word b ∷ word (int32_of (length seg)) ∷ word (int32_of (length seg)) ∷ segment seg ∷ []
items p (ask_close_blob b) = word b ∷ []
items p ask_connect_request = word (pos 1) ∷ word p.db_handle ∷ word (pos 0) ∷ []
items p (ask_que_events a epb id) = word a ∷ opaque epb ∷ word (pos 0) ∷ word (pos 0) ∷ word id ∷ []
items p (ask_cancel_events id) = word p.db_handle ∷ word id ∷ []
items p ask_service_attach =
    word (pos 0) ∷ text p (bytes_of "service_mgr") ∷ opaque (service_spb p) ∷ []
items p ask_service_detach = word p.db_handle ∷ []
items p (ask_service_info spb srb n) =
    word p.db_handle ∷ word (pos 0) ∷ opaque spb ∷ opaque srb ∷ word (info_length n) ∷ []
items p (ask_service_start spb) = word p.db_handle ∷ word (pos 0) ∷ opaque spb ∷ []
items p ask_allocate_statement = word p.db_handle ∷ []
items p (ask_free_statement s m) = word s ∷ word m ∷ []
items p (ask_prepare_statement s t q) =
    word t
    ∷ word s
    ∷ word (pos 3)
    ∷ text p q
    ∷ opaque (21 ∷ info_sql_select_describe_vars)
    ∷ word buffer_len
    ∷ []
items p (ask_execute_immediate t q) =
    word t ∷ word (pos 0) ∷ word (pos 3) ∷ text p q ∷ opaque [] ∷ word (pos 0) ∷ []
items p (ask_info_sql s vars) = word s ∷ word (pos 0) ∷ opaque vars ∷ word buffer_len ∷ []
items p (ask_fetch s blr) = word s ∷ opaque blr ∷ word (pos 0) ∷ word (pos 400) ∷ []
items p (ask_fetch_scroll s blr d o n) =
    word s ∷ opaque blr ∷ word (pos 0) ∷ word n ∷ word d ∷ word o ∷ []
items p (ask_batch_exec s t) = word s ∷ word t ∷ []
items p (ask_execute s t ps) = word s ∷ word t ∷ param_items ps (trailers p)
items p (ask_execute2 s t ps out) =
    word s ∷ word t ∷ param_items ps (opaque out ∷ word (pos 0) ∷ trailers p)

-- The packet of a request.
abbrev pub message : WireProtocol → Request → List Item
message p r = word (pos (opcode r)) ∷ items p r
