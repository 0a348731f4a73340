-- ===== src/Lib.antt =====
-- Verification library of the Go driver for the Firebird database.
--
-- The driver speaks Firebird's wire protocol for Go's database/sql. A connection is opened by a
-- handshake (wireprotocol.go, wire_crypt.go, auth_plugin.go), values travel as XDR, BLR and
-- parameter blocks (utils.go, xpb.go, xsqlvar.go), and BLOBs come in segments (wireprotocol.go,
-- inline_blob.go). Each request is a packet of XDR items that sendPackets hands to the connection
-- (wireprotocol.go), and connection.go and transaction.go decide which transaction a request runs in.
-- What a server sends is not trusted: each parser checks its bounds before it
-- slices, and much of what follows is about these checks.
--
-- The files, and the code that they model (paths from the repository's root):
--   Base      numbers, lists, signed integers, machine words; no code of the driver.
--   Bytes     utils.go: the integer encoders and readers, xdrBytes, _bytesToBlr.
--   Texts     utils.go: splitList, and the string and number functions of Go's library that it needs.
--   Xpb       xpb.go: XPBReader and XPBWriter. The children are the bounds and the round trip.
--   Calendar  utils.go: _convert_date, _convert_time; xsqlvar.go: _parseDate, _parseTime.
--   Packets   the requests. The module itself is the packet buffer and sendPackets of
--             wireprotocol.go; Attachment, Transactions, Blobs, Services and Statements are its op
--             functions (and that of execute_immediate.go), Batches is batch_wire.go, Blocks the
--             parameter blocks of an attachment, Consts the codes of consts.go. Requests has a
--             constructor per request and says what each sends, apart from the code, and Items says
--             what the parameter block of an attachment holds; Server and Clumplets read packets and
--             parameter blocks; Sending, Delivery, Refinement, Layouts and Attached hold the one
--             against the other.
--   Connection  connection.go, transaction.go and BeginTx of driver_go18.go. Transactions are shared
--             by pointers, which are positions in the list of all transactions. Isolation has the
--             levels, Transactions the operations; Sound and Invariant, Sends and Closing, Levels
--             and Ends are about them.
--   DecFloat  decfloat.go: decimals of 64 and 128 bits and their texts. Dpd is about the packed
--             digits, RoundTrip and Total about the whole.
--   Policy    wire_crypt.go, auth_plugin.go, and _guess_wire_crypt of wireprotocol.go.
--   Blob      the segment loops of getBlobSegments (wireprotocol.go) and
--             decodeInlineSegmentBuffer (inline_blob.go); its child Cache is inlineBlobCache.
--   Wire      wireprotocol.go: recvPackets, recvPacketsAlignment, recvHandshakeBlob; its child Status
--             models _parse_status_vector, its child Response _parse_op_response, with opResponse
--             in Answer, and its child InlineBlob parseInlineBlobPayload and
--             consumeInlineBlobsStarting of inline_blob.go.
--   Describe  wireprotocol.go: _parse_select_items, and in its child Statement parse_xsqlda. The
--             children Safety and Columns are about the first, Prepared is about the second.
--   Services  the Services API. Consts are the tags of consts.go; Backup, NBackup, Maintenance, Users
--             and Stats are the options and requests of backup_manager.go, nbackup_manager.go,
--             maintenance_manager.go, user_manager.go and service_manager.go; Trace is
--             trace_manager.go; Info and its child Stream are the answers that service_manager.go
--             reads, and Replies the parsers of what a service streams. Commands has a constructor
--             per method that sends a request, Requests says what each asks, apart from the code,
--             and Blocks, UserBlocks, Masks and Refinement hold the one against the other. Options,
--             Sessions and Acknowledged are about the functional options and the trace session.
--   Events    remoteEvent.go: queueEvents, cancelEvents, getEventCounts, buildEpb. The children are
--             about the counts and about what a subscription accepts.
-- Bytes and Texts are used by all others, and Connection sends through Packets; each component's own module holds its state and its
-- operations, and the modules below it hold the proofs, with runs in its module Tests.
--
-- Conventions. A byte slice or a string is the list of its bytes. An int16, int32 or int64 is a ℤ,
-- and its two's complement pattern is what shifts and masks work on. A Go panic is the value none
-- (or the constructor panic) of the model's own result, so that its absence is a theorem. A loop
-- over a buffer takes fuel, and the buffer's length is fuel enough, since each round moves on; the
-- value that stands for spent fuel is shown never to be reached. What the server is still to send is
-- a list of bytes, which each receiver takes from; the number of bytes left bounds the status loop.
--
-- What each Write and each Flush of the connection does is a list of outcomes, and so is what
-- opResponse gives a connection, so that a theorem about every list is about every failure. Where a
-- description is continued, opResponse is read from the stream, and whether what the driver sends
-- meanwhile goes out is a function of what is still to come.
--
-- Not modelled: the network, deadlines, ciphers and hash functions, time zones, floating point
-- values, the generated tables of messages and codes (they are parameters of Status and Response), a
-- nil cache of inline BLOBs, and reflection. opResponse is read with no lazy response outstanding.
-- The packets of op_connect and of array slices are left out, and the parameters of an execution come
-- as paramsToBlr converted them. Of the Services API the connections and channels are left out: a
-- method is the block that it hands to the service, a stream is the list of the responses to its
-- requests, and what a trace session's own connection comes to is an argument of each operation. A
-- call on a subscription for events is one step, without its locks. The regular expressions of
-- trace_manager.go are written out as a search for a text, digits and a word. A date's year is a
-- natural number from 1, Go's strings.TrimSpace and strings.ToLower are those of ASCII, and an int is
-- not taken to wrap, but for the position of an XPBReader that skips.
pub mod Base
pub mod Bytes
pub mod Texts
pub mod Xpb
pub mod Calendar
pub mod Packets
pub mod Connection
pub mod Policy
pub mod Blob
pub mod Wire
pub mod DecFloat
pub mod Describe
pub mod Services
pub mod Events
