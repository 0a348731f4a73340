-- ===== src/Packets.antt =====
-- What wireprotocol.go sends: the packet buffer of a connection, the XDR items appended to it, and
-- `sendPackets`, which hands the buffer to the connection.
pub mod Consts
pub mod Blocks
pub mod Attachment
pub mod Transactions
pub mod Blobs
pub mod Services
pub mod Statements
pub mod Sending
pub mod Batches
pub mod Requests
pub mod Delivery
pub mod Server
pub mod Refinement
pub mod Layouts
pub mod Clumplets
pub mod Items
pub mod Attached
mod Tests
use firebirdsql_go.Base.{
  ℕ, ◌+◌, ℤ, pos, i32, u32, Option, none, some, List, [], ◌∷◌, ◌++◌, length, take, drop,
}
use firebirdsql_go.Bytes.{bint32_to_bytes, xdr_bytes}

-- What one `Write` of the connection does: it takes that many bytes of what is offered, all of them
-- if they are fewer, and then reports an error or none.
pub data Write : Type 0 where
  accepts fails : ℕ → Write

-- `bad_conn` is `driver.ErrBadConn`. The others are errors of the parameters' conversion and of the
-- responses that a request waits for.
pub data SendFault : Type 0 where
  bad_conn bad_parameter bad_response : SendFault

-- What one `Flush` of the connection does: all that it took goes out, or only that many more bytes,
-- with an error.
pub data Flush : Type 0 where
  flushed : Flush
  flush_fails : ℕ → Flush

-- The connection `conn`: what its next calls of `Write` and `Flush` do, and what has gone out. After
-- those it takes everything, and everything goes out.
pub record WireChannel : Type 0 where
  pub writes : List Write
  pub flushes : List Flush
  pub delivered : List ℕ

-- The fields of `wireProtocol` that the packets depend on. `sent` is what the connection took so far.
-- `encode_charset` is `encodeCharset` at the connection's character set.
pub record WireProtocol : Type 0 where
  pub buf : List ℕ
  pub sent : List ℕ
  pub conn : WireChannel
  pub db_handle : ℤ
  pub protocol_version : ℤ
  pub user : List ℕ
  pub password : List ℕ
  pub timezone : List ℕ
  pub charset : List ℕ
  pub client_version : List ℕ
  pub os_user : List ℕ
  pub host_name : List ℕ
  pub auth_data : Option (List ℕ)
  pub cursor_flags : ℤ
  pub max_inline_blob_size : ℤ
  pub max_blob_cache_size : ℤ
  pub encode_charset : List ℕ → Option (List ℕ)

-- One statement after another.
infixl 5 ◌▷◌
abbrev pub ◌▷◌ {ℓ κ} : {A : Type ℓ} {B : Type κ} → A → (A → B) → B
x ▷ f = f x

unfoldable pub append_bytes : List ℕ → WireProtocol → WireProtocol
append_bytes bs p = record p { buf = p.buf ++ bs }

unfoldable pub pack_int : ℤ → WireProtocol → WireProtocol
pack_int i p = record p { buf = p.buf ++ bint32_to_bytes i }

unfoldable pub pack_bytes : List ℕ → WireProtocol → WireProtocol
pack_bytes b p = record p { buf = p.buf ++ xdr_bytes b }

-- A text that the character set cannot encode goes as it is.
unfoldable pub encode_string : WireProtocol → List ℕ → List ℕ
encode_string p str = elim (p.encode_charset str) [ none ↦ str | some v ↦ v ]

unfoldable pub pack_string : List ℕ → WireProtocol → WireProtocol
unfolding encode_string
pack_string s p = record p { buf = p.buf ++ xdr_bytes (encode_string p s) }

-- Of what is offered: the writes left, the bytes the connection took, the number it reported
-- without an error, and the error.
pub record Written : Type 0 where
  left : List Write
  taken : List ℕ
  count : ℕ
  failure : Option SendFault

abbrev pub after_write : List ℕ → ℕ → Written → Written
after_write chunk n w = record w { taken = chunk ++ w.taken; count = n + w.count }

-- The loop of `sendPackets`, which goes on until nothing is left to write.
unfoldable pub write_loop : List Write → List ℕ → Written
write_loop ws [] = record { left = ws; taken = []; count = 0; failure = none }
write_loop [] (b ∷ bs) = record {
  left = [];
  taken = b ∷ bs;
  count = length (b ∷ bs);
  failure = none;
}
write_loop (accepts n ∷ ws) (b ∷ bs) =
    after_write (take n (b ∷ bs)) (length (take n (b ∷ bs))) (write_loop ws (drop n (b ∷ bs)))
write_loop (fails n ∷ ws) (b ∷ bs) = record {
  left = ws;
  taken = take n (b ∷ bs);
  count = 0;
  failure = some bad_conn;
}

-- `p.conn.Flush()` behind what the connection took: the flushes left, what has gone out, and the
-- error.
unfoldable pub flush : List Flush → List ℕ → List ℕ → List Flush × (List ℕ × Option SendFault)
flush [] delivered all = ([], (all, none))
flush (flushed ∷ fs) delivered all = (fs, (all, none))
flush (flush_fails n ∷ fs) delivered all =
    (fs, (delivered ++ take n (drop (length delivered) all), some bad_conn))

-- The error of the flush is dropped. The buffer is emptied whether or not the connection took all
-- of it.
unfoldable pub send_packets : WireProtocol → WireProtocol × (ℕ × Option SendFault)
unfolding write_loop flush
send_packets p =
    let w = write_loop p.conn.writes p.buf in
    let all = p.sent ++ w.taken in
    let f = flush p.conn.flushes p.conn.delivered all in
    (
      record p {
        buf = [];
        sent = all;
        conn = record { writes = w.left; flushes = f.0; delivered = f.1.0 };
      },
      (w.count, w.failure),
    )

-- `_, err := p.sendPackets(); return err`.
unfoldable pub send : WireProtocol → WireProtocol × Option SendFault
unfolding send_packets
send p = let r = send_packets p in (r.0, r.1.1)

-- A request: its packet is built and sent.
abbrev pub Send : Type 0
Send = WireProtocol → WireProtocol × Option SendFault

abbrev pub buffer_len : ℤ
buffer_len = pos 1024

-- `int32(n)` of a length.
abbrev pub int32_of : ℕ → ℤ
int32_of n = i32 (u32 (pos n))

unfoldable pub suspend_buffer : WireProtocol → WireProtocol × List ℕ
suspend_buffer p = (record p { buf = [] }, p.buf)

unfoldable pub resume_buffer : List ℕ → WireProtocol → WireProtocol
resume_buffer buf p = record p { buf = buf }
