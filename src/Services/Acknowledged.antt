-- ===== src/Services/Acknowledged.antt =====
-- What a trace session does when the server confirms: the messages that the code looks for are found.
use firebirdsql_go.Base.{
  lt→ltb, take-append, bytes_eq, bytes_eq_iff, ℕ, ◌≤◌, ◌<◌, ◌^◌, ◌≡◌, ◌≢◌, refl, arith, pos, true,
  false, none, some, List, [], ◌∷◌, ◌++◌, bytes_of, leb, All,
}
use firebirdsql_go.Services.{is_empty}
use firebirdsql_go.Services.Trace.{
  is_digit, digits, match_here, number, session_text, starts_with, SessionState, session_stopped,
  session_running, session_paused, TraceSession, line, find_submatch, session, started_by,
  start_request, start_with_name, id_request, Outcome, ask, stop, pause, resume,
}
use firebirdsql_go.Services.Consts.{
  isc_action_svc_trace_stop, isc_action_svc_trace_suspend, isc_action_svc_trace_resume,
}

-- A digit, and the digits before a space.
abbrev pub IsDigit : ℕ → Type 0
IsDigit c = (48 ≤ c) × (c < 58)

digits-append : (ds rest : List ℕ) → All IsDigit ds → digits (ds ++ 32 ∷ rest) ≡ (ds, 32 ∷ rest)
unfolding is_digit
digits-append [] rest h = refl
digits-append (d ∷ ds) rest h = rw (digits-append ds rest h.1, below d h.0.0, above d h.0.1)
  where
    below : (d : ℕ) → 48 ≤ d → leb 48 d ≡ true
    below d le = ground arith

    above : (d : ℕ) → d < 58 → leb d 57 ≡ true
    above d lt = ground arith

-- What the server says, in front of whatever: with the word for what happened behind a space.
abbrev pub message : List ℕ → List ℕ → List ℕ → List ℕ
message ds word more = session_text ++ (ds ++ (32 ∷ word ++ more))

match_session :
    (word xs ds rest : List ℕ)
    → digits xs ≡ (ds, rest)
    → is_empty ds ≡ false
    → starts_with word rest ≡ true
    → match_here word (session_text ++ xs) ≡ some ds
unfolding bytes_eq
match_session word xs ds rest e n w = rw (match_here, e, n, w)

find_here :
    (word : List ℕ) (c : ℕ) (cs ds : List ℕ)
    → match_here word (c ∷ cs) ≡ some ds
    → find_submatch word (c ∷ cs) ≡ some ds
unfolding find_submatch
find_here word c cs ds e = rw (find_submatch, e)

starts_with-append : (word more : List ℕ) → starts_with word (word ++ more) ≡ true
starts_with-append word more = rw take-append ((bytes_eq_iff word word).1 refl)

find_submatch-message :
    (d : ℕ) (ds word more : List ℕ)
    → All IsDigit (d ∷ ds)
    → find_submatch (32 ∷ word) (message (d ∷ ds) word more) ≡ some (d ∷ ds)
find_submatch-message d ds word more h = find_here (32 ∷ word) _ _ (d ∷ ds) (
    match_session (32 ∷ word) ((d ∷ ds) ++ (32 ∷ word ++ more)) (d ∷ ds) _
      (digits-append (d ∷ ds) (word ++ more) h) refl (starts_with-append (32 ∷ word) more))

started_lem :
    (name config res ds : List ℕ)
    → find_submatch (bytes_of " started") res ≡ some ds
    → number 0 ds < 2 ^ 31
    → start_with_name name config (line res) ≡ (
      start_request name config ∷ [],
      session (record { id = pos (number 0 ds); state = session_running; connected = true }),
    )
unfolding start_with_name started_by
started_lem name config res ds e lt =
    rw (start_with_name, started_by, e, lt→ltb (number 0 ds) (2 ^ 31) lt) refl

matched :
    (ts : TraceSession) (action : ℕ) (word res ds : List ℕ) (next : SessionState)
    → find_submatch word res ≡ some ds
    → ask ts action word next (line res) ≡ record {
      after = record ts { state = next };
      sent = id_request action ts.id ∷ [];
      error = none;
    }
unfolding ask
matched ts action word res ds next e = rw (ask, e)

-- The outcome of an operation that succeeds: one request, and the new state.
abbrev pub succeeds : TraceSession → ℕ → SessionState → Outcome
succeeds ts action next = record {
  after = record ts { state = next };
  sent = id_request action ts.id ∷ [];
  error = none;
}

stop_matched :
    (ts : TraceSession) (res ds : List ℕ)
    → find_submatch (bytes_of " stopped") res ≡ some ds
    → ts.state ≢ session_stopped
    → stop ts (line res) ≡ succeeds ts isc_action_svc_trace_stop session_stopped
unfolding stop
stop_matched ts res ds e = by_state ts.state
  where
    by_state :
        (s : SessionState)
        → s ≢ session_stopped
        → (let t = record ts { state = s } in
            stop t (line res) ≡ succeeds t isc_action_svc_trace_stop session_stopped)
    by_state session_stopped n = absurd (n refl)
    by_state session_running n = matched _ _ _ res ds _ e
    by_state session_paused n = matched _ _ _ res ds _ e

pause_matched :
    (ts : TraceSession) (res ds : List ℕ)
    → find_submatch (bytes_of " paused") res ≡ some ds
    → ts.state ≡ session_running
    → pause ts (line res) ≡ succeeds ts isc_action_svc_trace_suspend session_paused
unfolding pause
pause_matched ts res ds e h = by_state ts.state h
  where
    by_state :
        (s : SessionState)
        → s ≡ session_running
        → (let t = record ts { state = s } in
            pause t (line res) ≡ succeeds t isc_action_svc_trace_suspend session_paused)
    by_state session_stopped n = cc n
    by_state session_running n = matched _ _ _ res ds _ e
    by_state session_paused n = cc n

resume_matched :
    (ts : TraceSession) (res ds : List ℕ)
    → find_submatch (bytes_of " resumed") res ≡ some ds
    → ts.state ≡ session_paused
    → resume ts (line res) ≡ succeeds ts isc_action_svc_trace_resume session_running
unfolding resume
resume_matched ts res ds e h = by_state ts.state h
  where
    by_state :
        (s : SessionState)
        → s ≡ session_paused
        → (let t = record ts { state = s } in
            resume t (line res) ≡ succeeds t isc_action_svc_trace_resume session_running)
    by_state session_stopped n = cc n
    by_state session_running n = cc n
    by_state session_paused n = matched _ _ _ res ds _ e

-- When the server confirms with its message, a session starts as running under the number in it,
-- a session that is not stopped stops, a running one pauses and a paused one resumes, each with
-- one request and no error. The number is below 2 ^ 31.
pub acknowledged_calls :
    (ts : TraceSession) (name config : List ℕ) (d : ℕ) (ds more : List ℕ)
    → All IsDigit (d ∷ ds)
    → number 0 (d ∷ ds) < 2 ^ 31
    → (start_with_name name config (line (message (d ∷ ds) (bytes_of "started") more)) ≡ (
      start_request name config ∷ [],
      session (record { id = pos (number 0 (d ∷ ds)); state = session_running; connected = true }),
    ))
      × (ts.state ≢ session_stopped
          → stop ts (line (message (d ∷ ds) (bytes_of "stopped") more))
            ≡ succeeds ts isc_action_svc_trace_stop session_stopped)
      × (ts.state ≡ session_running
          → pause ts (line (message (d ∷ ds) (bytes_of "paused") more))
            ≡ succeeds ts isc_action_svc_trace_suspend session_paused)
      × (ts.state ≡ session_paused
          → resume ts (line (message (d ∷ ds) (bytes_of "resumed") more))
            ≡ succeeds ts isc_action_svc_trace_resume session_running)
acknowledged_calls ts name config d ds more h lt = (
  started_lem name config _ (d ∷ ds) (find_submatch-message d ds (bytes_of "started") more h) lt,
  stop_matched ts _ (d ∷ ds) (find_submatch-message d ds (bytes_of "stopped") more h),
  pause_matched ts _ (d ∷ ds) (find_submatch-message d ds (bytes_of "paused") more h),
  resume_matched ts _ (d ∷ ds) (find_submatch-message d ds (bytes_of "resumed") more h),
)
