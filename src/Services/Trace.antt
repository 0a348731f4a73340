-- ===== src/Services/Trace.antt =====
-- trace_manager.go: the sessions of the trace service. What the regular expressions of the code look
-- for is written out: a fixed text, digits, and the word for what happened.
use firebirdsql_go.Base.{
  ℕ, ◌+◌, ◌-◌, ◌*◌, ◌^◌, ℤ, pos, Bool, true, false, not, ◌&&◌, Option, none, some, List, [], ◌∷◌,
  ◌++◌, length, drop, take, leb, ltb, bytes_eq, bytes_of, if◌then◌else◌,
}
use firebirdsql_go.Xpb.{writer_from_tag, put_string, put_int32}
use firebirdsql_go.Services.{is_empty}
use firebirdsql_go.Services.Consts.{
  isc_action_svc_trace_start, isc_action_svc_trace_stop, isc_action_svc_trace_suspend,
  isc_action_svc_trace_resume, isc_spb_trc_id, isc_spb_trc_name, isc_spb_trc_cfg,
}

pub data SessionState : Type 0 where
  session_stopped session_running session_paused : SessionState

-- `connected` is whether the field `conn` is still a connection.
pub record TraceSession : Type 0 where
  pub id : ℤ
  pub state : SessionState
  pub connected : Bool

-- `nil_connection` is no error of the code, but a panic: a method call on the nil `conn`.
pub data TraceError : Type 0 where
  already_stopped not_running not_paused no_connection start_failed no_line : TraceError
  no_match bad_id close_failed nil_connection : TraceError

-- What a connection that an operation opens comes to: it fails, the request fails, no line comes,
-- or a line.
pub data Answer : Type 0 where
  refused rejected silent : Answer
  line : List ℕ → Answer

unfoldable pub is_digit : ℕ → Bool
is_digit c = leb 48 c && leb c 57

-- The longest run of digits, and what is behind it.
abbrev pub digits : List ℕ → List ℕ × List ℕ
digits [] = ([], [])
digits (c ∷ cs) = let (ds, rest) = digits cs in if is_digit c then (c ∷ ds, rest) else ([], c ∷ cs)

abbrev pub starts_with : List ℕ → List ℕ → Bool
starts_with prefix s = bytes_eq prefix (take (length prefix) s)

abbrev pub session_text : List ℕ
session_text = bytes_of "Trace session ID "

-- The match that begins here: `Trace session ID (\d+) <word>`.
abbrev pub match_here : List ℕ → List ℕ → Option (List ℕ)
match_here word s =
    let (ds, rest) = digits (drop (length session_text) s) in
    if starts_with session_text s && not (is_empty ds) && starts_with word rest
    then some ds
    else none

-- `FindStringSubmatch`: the leftmost match.
unfoldable pub find_submatch : List ℕ → List ℕ → Option (List ℕ)
unfolding is_digit
find_submatch word [] = none
find_submatch word (c ∷ cs) =
    let later = find_submatch word cs in
    elim (match_here word (c ∷ cs)) [ some ds ↦ some ds | none ↦ later ]

abbrev pub number : ℕ → List ℕ → ℕ
number n [] = n
number n (d ∷ ds) = number (n * 10 + (d - 48)) ds

-- `strconv.ParseInt(s, 10, 32)` of digits.
abbrev pub parse_int : List ℕ → Option ℤ
parse_int ds = let n = number 0 ds in if ltb n (2 ^ 31) then some (pos n) else none

unfoldable pub start_request : List ℕ → List ℕ → List ℕ
start_request name config =
    let spb = writer_from_tag isc_action_svc_trace_start in
    let spb = if not (is_empty name) then put_string spb isc_spb_trc_name name else spb in
    put_string spb isc_spb_trc_cfg config

pub data Started : Type 0 where
  session : TraceSession → Started
  failed : TraceError → Started

-- What the line that the server answers says.
unfoldable pub started_by : List ℕ → Started
unfolding find_submatch
started_by res = elim (find_submatch (bytes_of " started") res) [
  | none ↦ failed no_match
  | some ds ↦ elim (parse_int ds) [
    | none ↦ failed bad_id
    | some id ↦ session (record { id = id; state = session_running; connected = true })
  ]
]

-- `StartWithName`, on what came of its request: the requests that it sent, and its result.
unfoldable pub start_with_name : List ℕ → List ℕ → Answer → List (List ℕ) × Started
unfolding start_request started_by
start_with_name name config refused = ([], failed no_connection)
start_with_name name config rejected = (start_request name config ∷ [], failed start_failed)
start_with_name name config silent = (start_request name config ∷ [], failed no_line)
start_with_name name config (line res) = (start_request name config ∷ [], started_by res)

unfoldable pub id_request : ℕ → ℤ → List ℕ
id_request action id = put_int32 (writer_from_tag action) isc_spb_trc_id id

-- A method's outcome: the session that it leaves, the requests that it sent, and its error.
pub record Outcome : Type 0 where
  pub after : TraceSession
  pub sent : List (List ℕ)
  pub error : Option TraceError

-- The part that Stop, Pause and Resume share, behind their test of the state.
unfoldable pub ask : TraceSession → ℕ → List ℕ → SessionState → Answer → Outcome
unfolding id_request find_submatch
ask ts action word next refused = record { after = ts; sent = []; error = some no_connection }
ask ts action word next rejected = record {
  after = ts;
  sent = id_request action ts.id ∷ [];
  error = some start_failed;
}
ask ts action word next silent = record {
  after = ts;
  sent = id_request action ts.id ∷ [];
  error = some no_line;
}
ask ts action word next (line res) = elim (find_submatch word res) [
  | none ↦ record { after = ts; sent = id_request action ts.id ∷ []; error = some no_match }
  | some ds ↦ record {
    after = record ts { state = next };
    sent = id_request action ts.id ∷ [];
    error = none;
  }
]

abbrev pub complain : TraceSession → TraceError → Outcome
complain ts e = record { after = ts; sent = []; error = some e }

unfoldable pub stop : TraceSession → Answer → Outcome
unfolding ask
stop ts a = elim ts.state [
  | session_stopped ↦ complain ts already_stopped
  | _ ↦ ask ts isc_action_svc_trace_stop (bytes_of " stopped") session_stopped a
]

unfoldable pub pause : TraceSession → Answer → Outcome
unfolding ask
pause ts a = elim ts.state [
  | session_running ↦ ask ts isc_action_svc_trace_suspend (bytes_of " paused") session_paused a
  | _ ↦ complain ts not_running
]

unfoldable pub resume : TraceSession → Answer → Outcome
unfolding ask
resume ts a = elim ts.state [
  | session_paused ↦ ask ts isc_action_svc_trace_resume (bytes_of " resumed") session_running a
  | _ ↦ complain ts not_paused
]

-- `ts.conn.Close()`, which reads through the pointer, and `ts.conn = nil`. The Boolean is whether
-- the connection closes.
abbrev pub close_connection : Outcome → Bool → Outcome
close_connection o closes =
    if not o.after.connected
    then record o { error = some nil_connection }
    else if closes
    then record o { after = record o.after { connected = false } }
    else record o { error = some close_failed }

unfoldable pub close : TraceSession → Answer → Bool → Outcome
unfolding stop
close ts a closes = elim ts.state [
  | session_stopped ↦ close_connection (record { after = ts; sent = []; error = none }) closes
  | _ ↦ let o = stop ts a in elim o.error [ some e ↦ o | none ↦ close_connection o closes ]
]

-- What `GetString` gives to the loop of `List`.
pub data Line : Type 0 where
  text : List ℕ → Line
  finish broken : Line

-- The loop of `List`: `res` is what it has so far, and a failed read is `"", nil`. No result if the
-- server is still to answer.
unfoldable pub list_loop : List Line → List ℕ → Option (List ℕ × Option TraceError)
list_loop [] res = none
list_loop (text l ∷ ls) res = list_loop ls (res ++ (l ++ 10 ∷ []))
list_loop (finish ∷ ls) res = some (res, none)
list_loop (broken ∷ ls) res = some ([], none)

-- `List`, on whether it has a connection and whether the service starts.
unfoldable pub list_sessions : Bool → Bool → List Line → Option (List ℕ × Option TraceError)
unfolding list_loop
list_sessions connected starts ls =
    if not connected
    then some ([], none)
    else if not starts
    then some ([], some start_failed)
    else list_loop ls []
