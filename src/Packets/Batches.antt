-- ===== src/Packets/Batches.antt =====
-- batch_wire.go: the requests of a batch, and the parameter block that it is made with.
use firebirdsql_go.Base.{
  ℕ, ℤ, pos, none, some, List, [], ◌∷◌, ◌++◌, length, replicate, leb_ℤ, if◌then◌else◌,
}
use firebirdsql_go.Bytes.{blr_padding, int32_to_bytes}
use firebirdsql_go.Packets.{
  WireProtocol, Send, ◌▷◌, append_bytes, pack_int, pack_bytes, send, int32_of,
}
use firebirdsql_go.Packets.Attachment.{op_ping}
use firebirdsql_go.Packets.Consts

-- `batchPBWriter`: a tag, the length of the value as an int32, and the value.
unfoldable pub new_batch_pb_writer : List ℕ
new_batch_pb_writer = 1 ∷ []

unfoldable pub put_byte : ℕ → ℕ → List ℕ → List ℕ
put_byte tag val pb = pb ++ tag ∷ [] ++ int32_to_bytes (pos 1) ++ val ∷ []

unfoldable pub put_int32 : ℕ → ℤ → List ℕ → List ℕ
put_int32 tag val pb = pb ++ tag ∷ [] ++ int32_to_bytes (pos 4) ++ int32_to_bytes val

-- The next request, unless there was an error.
infixl 5 ◌then◌
abbrev pub ◌then◌ : Send → Send → Send
(m then n) p = elim (m p).1 [ none ↦ n (m p).0 | some e ↦ ((m p).0, some e) ]

-- `op_response` is the receiver of one response, and what it leaves of the connection.
unfoldable pub receive_two_responses : Send → Send
receive_two_responses op_response = op_response then op_response

unfoldable pub op_batch_create : Send → ℤ → List ℕ → ℤ → List ℕ → Send
unfolding receive_two_responses
op_batch_create op_response stmt_handle blr msg_len pb =
    (λ p.
      p
      ▷ pack_int (pos Consts.op_batch_create)
      ▷ pack_int stmt_handle
      ▷ pack_bytes blr
      ▷ pack_int msg_len
      ▷ pack_bytes pb
      ▷ send)
    then op_ping
    then receive_two_responses op_response

unfoldable pub append_rows : List (List ℕ) → WireProtocol → WireProtocol
append_rows [] p = p
append_rows (row ∷ rows) p =
    append_rows rows (p ▷ append_bytes row ▷ append_bytes (replicate (blr_padding (length row)) 0))

-- From protocol 17 a batch has a request of its own that makes the server answer.
unfoldable pub sync : Send
sync p =
    if leb_ℤ (pos 17) p.protocol_version
    then p ▷ pack_int (pos Consts.op_batch_sync) ▷ send
    else op_ping p

unfoldable pub op_batch_msg : Send → ℤ → List (List ℕ) → Send
unfolding append_rows sync receive_two_responses
op_batch_msg op_response stmt_handle rows =
    (λ p.
      p
      ▷ pack_int (pos Consts.op_batch_msg)
      ▷ pack_int stmt_handle
      ▷ pack_int (int32_of (length rows))
      ▷ append_rows rows
      ▷ send)
    then sync
    then receive_two_responses op_response

unfoldable pub op_batch_exec : ℤ → ℤ → Send
op_batch_exec stmt_handle trans_handle p =
    p ▷ pack_int (pos Consts.op_batch_exec) ▷ pack_int stmt_handle ▷ pack_int trans_handle ▷ send

unfoldable pub op_batch_release : Send → ℤ → ℤ → Send
unfolding receive_two_responses
op_batch_release op_response stmt_handle kind =
    (λ p. p ▷ pack_int kind ▷ pack_int stmt_handle ▷ send)
    then op_ping
    then receive_two_responses op_response
