-- ===== src/Services/Tests.antt =====
-- The Services API at concrete values.
use firebirdsql_go.Base.{
  take, drop, negsuc, ℕ, ◌≡◌, ◌≢◌, refl, arith, ℤ, pos, true, none, some, List, [], ◌∷◌, map,
  bytes_of,
}
use firebirdsql_go.Bytes.{int16_to_bytes, int32_to_bytes}
use firebirdsql_go.Services.Replies.Users.{Listed, FitsListed, stream, to_user, get_users-responses}
use firebirdsql_go.Services.Info.{value}
use firebirdsql_go.Xpb.{XpbReader, new_reader, at_end, put_string, writer_from_tag}
use firebirdsql_go.Xpb.RoundTrip.{kind_of, read_fields}
use firebirdsql_go.Services.Backup.{
  BackupOptions, new_backup_options, new_restore_options, with_expand,
}
use firebirdsql_go.Services.Users.{User, new_user, with_username, with_admin}
use firebirdsql_go.Services.Commands.{Command, ask_restore, perform}
use firebirdsql_go.Services.Requests.{request}
use firebirdsql_go.Services.Refinement.{requests_reach_server}
use firebirdsql_go.Services.Replies.{
  get_users, parse_limbo, parse_users, get_svr_db_info, SrvDbInfo,
}
use firebirdsql_go.Services.Replies.Safety.{replies_total}
use firebirdsql_go.Services.Info.{
  Info, get_service_info_int, get_service_info_string, get_line, panic,
}
use firebirdsql_go.Services.Info.Safety.{NoPanic, answers_never_panic}
use firebirdsql_go.Services.Info.Stream.{wait_buffer, finished, failed}
use firebirdsql_go.Services.Info.Chunks.{Piece, piece, timeout, responses, wait_buffer-responses}
use firebirdsql_go.Services.Trace.{
  session, session_paused, start_request, start_with_name, TraceSession, session_stopped,
  session_running, silent, line, stop, pause, resume, close,
}
use firebirdsql_go.Services.Sessions.{Moves, Keeps, session_steps}
use firebirdsql_go.Services.Acknowledged.{acknowledged_calls, message, succeeds}
use firebirdsql_go.Services.Consts.{
  isc_action_svc_trace_stop, isc_action_svc_trace_suspend, isc_action_svc_trace_resume,
}

abbrev restore_command : Command
restore_command = ask_restore (bytes_of "b.fbk") (bytes_of "d.fdb") (new_restore_options []) true

requests_reach_server_example :
    (spb : List ℕ) × (perform restore_command ≡ some spb)
    × ((r : XpbReader) × (read_fields (map kind_of (request restore_command)) (new_reader spb)
          ≡ some (r, request restore_command))
        × (r.err ≡ none)
        × (at_end r ≡ true))
requests_reach_server_example =
    requests_reach_server restore_command tt
      (tt, (omega arith, (omega arith, (omega arith, (tt, tt)))))

abbrev expanding : BackupOptions
expanding = new_backup_options (with_expand ∷ [])

abbrev admin : User
admin = new_user (with_username (bytes_of "A") ∷ with_admin ∷ [])

replies_total_example :
    ((i : Info (List ℤ)) × (parse_limbo (19 ∷ 1 ∷ []) ≡ some i))
    × ((i : Info (List User)) × (parse_users (19 ∷ 1 ∷ []) ≡ some i))
    × ((i : Info SrvDbInfo) × (get_svr_db_info (some (50 ∷ 5 ∷ [])) ≡ some i))
replies_total_example = replies_total (19 ∷ 1 ∷ []) (some (50 ∷ 5 ∷ []))

abbrev two_pieces : List Piece
two_pieces = piece (1 ∷ 2 ∷ []) ∷ timeout ∷ piece (3 ∷ []) ∷ []

wait_buffer-responses_example :
    wait_buffer (responses two_pieces) 1024 ≡ ((1 ∷ 2 ∷ []) ∷ (3 ∷ []) ∷ [], finished)
wait_buffer-responses_example =
    wait_buffer-responses two_pieces 1024
      ((omega arith, omega arith), (tt, ((omega arith, omega arith), tt)))

abbrev running : TraceSession
running = record { id = pos 7; state = session_running; connected = true }

abbrev stopped : TraceSession
stopped = record { id = pos 7; state = session_stopped; connected = true }

session_steps_example :
    (Moves running (stop running silent) × Keeps running (stop running silent))
    × (Moves running (pause running silent) × Keeps running (pause running silent))
    × (Moves running (resume running silent) × Keeps running (resume running silent))
    × Moves running (close running silent true)
session_steps_example = session_steps running silent true

acknowledged_calls_example :
    (start_with_name [] (bytes_of "x") (line (message (55 ∷ []) (bytes_of "started") []))
      ≡ ((22 ∷ 3 ∷ 1 ∷ 0 ∷ 120 ∷ []) ∷ [], session running))
    × (session_running ≢ session_stopped
        → stop running (line (message (55 ∷ []) (bytes_of "stopped") []))
          ≡ succeeds running isc_action_svc_trace_stop session_stopped)
    × (session_running ≡ session_running
        → pause running (line (message (55 ∷ []) (bytes_of "paused") []))
          ≡ succeeds running isc_action_svc_trace_suspend session_paused)
    × (session_running ≡ session_paused
        → resume running (line (message (55 ∷ []) (bytes_of "resumed") []))
          ≡ succeeds running isc_action_svc_trace_resume session_running)
unfolding start_request put_string writer_from_tag int16_to_bytes
acknowledged_calls_example =
    acknowledged_calls running [] (bytes_of "x") 55 [] [] ((omega arith, omega arith), tt)
      (omega arith)

answers_never_panic_example :
    NoPanic (get_service_info_int (some (67 ∷ 1 ∷ [])) 67)
    × NoPanic (get_service_info_string (some (67 ∷ 1 ∷ [])) 67)
    × NoPanic (get_line (some (67 ∷ 1 ∷ [])))
    × ((wait_buffer (some (63 ∷ 9 ∷ 0 ∷ 1 ∷ []) ∷ []) 1024).1 ≢ failed panic)
answers_never_panic_example =
    answers_never_panic (some (67 ∷ 1 ∷ [])) 67 (some (63 ∷ 9 ∷ 0 ∷ 1 ∷ []) ∷ []) 1024

abbrev listed : Listed
listed = record {
  name = bytes_of "SYSDBA";
  first = [];
  middle = [];
  last = bytes_of "L";
  uid = pos 0;
  gid = negsuc 0;
  is_admin = true;
}

listed-FitsListed : FitsListed listed
listed-FitsListed = record {
  name_fits = omega arith;
  first_fits = omega arith;
  middle_fits = omega arith;
  last_fits = omega arith;
  uid_fits = omega arith;
  gid_fits = omega arith;
}

-- The stream is cut within the name.
abbrev cut_stream : List Piece
cut_stream =
    piece (take 4 (stream (listed ∷ []))) ∷ timeout ∷ piece (drop 4 (stream (listed ∷ []))) ∷ []

get_users-responses_example :
    get_users (responses cut_stream) ≡ some (value (map to_user (listed ∷ [])))
unfolding int16_to_bytes int32_to_bytes
get_users-responses_example =
    get_users-responses cut_stream (listed ∷ [])
      ((omega arith, omega arith), (tt, ((omega arith, omega arith), tt))) (listed-FitsListed, tt)
      refl
