-- ===== src/Services/Sessions.antt =====
-- The states that a trace session goes through, whatever the server answers.
use firebirdsql_go.Base.{
  map, true, false, if_either, option_cases, not, ℕ, ◌≡◌, refl, ◌∙◌, ap, sym, subst, Bool, Option,
  none, some, List, [], ◌∷◌, ◌++◌,
}
use firebirdsql_go.Services.Trace.{
  Line, text, finish, broken, list_loop, list_sessions, SessionState, session_stopped,
  session_running, session_paused, TraceSession, TraceError, Answer, refused, rejected, silent,
  line, find_submatch, Outcome, ask, close_connection, stop, pause, resume, close,
}

-- A call of a method; `Close` may also ask to stop.
pub data Method : Type 0 where
  stop_method pause_method resume_method : Answer → Method
  close_method : Answer → Bool → Method

abbrev pub call : TraceSession → Method → Outcome
call ts (stop_method a) = stop ts a
call ts (pause_method a) = pause ts a
call ts (resume_method a) = resume ts a
call ts (close_method a closes) = close ts a closes

-- The session behind some calls, and all that they sent.
pub call_all : TraceSession → List Method → TraceSession × List (List ℕ)
call_all ts [] = (ts, [])
call_all ts (m ∷ ms) =
    let o = call ts m in let (end, sent) = call_all o.after ms in (end, o.sent ++ sent)

-- From one state to the next: a stopped session stays so, and only a running one is paused.
pub data Follows : SessionState → SessionState → Type 0 where
  stays : (s : SessionState) → Follows s s
  stops : (s : SessionState) → Follows s session_stopped
  pauses : Follows session_running session_paused
  resumes : Follows session_paused session_running

-- One call: the session keeps its number, and its state moves along.
pub record Moves (ts : TraceSession) (o : Outcome) : Type 0 where
  pub same_id : o.after.id ≡ ts.id
  pub follows : Follows ts.state o.after.state

-- With an error the session is the old one.
abbrev pub Keeps : TraceSession → Outcome → Type 0
Keeps ts o = (e : TraceError) → o.error ≡ some e → o.after ≡ ts

stays-Moves : (ts : TraceSession) (o : Outcome) → o.after ≡ ts → Moves ts o
stays-Moves ts o e = record {
  same_id = ap (λ t. t.id) e;
  follows = rw (ap (λ t. t.state) e) (stays ts.state);
}

ask-Moves :
    (ts : TraceSession) (action : ℕ) (word : List ℕ) (next : SessionState) (a : Answer)
    → Follows ts.state next
    → Moves ts (ask ts action word next a) × Keeps ts (ask ts action word next a)
unfolding ask
ask-Moves ts action word next refused h = (stays-Moves ts _ refl, λ e d. refl)
ask-Moves ts action word next rejected h = (stays-Moves ts _ refl, λ e d. refl)
ask-Moves ts action word next silent h = (stays-Moves ts _ refl, λ e d. refl)
ask-Moves ts action word next (line res) h = by_match (find_submatch word res) refl
  where
    by_match :
        (m : Option (List ℕ))
        → find_submatch word res ≡ m
        → Moves ts (ask ts action word next (line res))
          × Keeps ts (ask ts action word next (line res))
    by_match none e = (stays-Moves ts _ (rw (ask, e)), λ f d. rw (ask, e))
    by_match (some ds) e =
        (record { same_id = rw (ask, e); follows = rw (ask, e) h }, λ f d. cc (rw (ask, e) at d))

stop-Moves : (ts : TraceSession) (a : Answer) → Moves ts (stop ts a) × Keeps ts (stop ts a)
unfolding stop
stop-Moves ts a = by_state ts.state
  where
    by_state :
        (s : SessionState)
        → (let t = record ts { state = s } in Moves t (stop t a) × Keeps t (stop t a))
    by_state session_stopped = (stays-Moves _ _ refl, λ e d. refl)
    by_state session_running = ask-Moves _ _ _ _ a (stops session_running)
    by_state session_paused = ask-Moves _ _ _ _ a (stops session_paused)

pause-Moves : (ts : TraceSession) (a : Answer) → Moves ts (pause ts a) × Keeps ts (pause ts a)
unfolding pause
pause-Moves ts a = by_state ts.state
  where
    by_state :
        (s : SessionState)
        → (let t = record ts { state = s } in Moves t (pause t a) × Keeps t (pause t a))
    by_state session_stopped = (stays-Moves _ _ refl, λ e d. refl)
    by_state session_running = ask-Moves _ _ _ _ a pauses
    by_state session_paused = (stays-Moves _ _ refl, λ e d. refl)

resume-Moves : (ts : TraceSession) (a : Answer) → Moves ts (resume ts a) × Keeps ts (resume ts a)
unfolding resume
resume-Moves ts a = by_state ts.state
  where
    by_state :
        (s : SessionState)
        → (let t = record ts { state = s } in Moves t (resume t a) × Keeps t (resume t a))
    by_state session_stopped = (stays-Moves _ _ refl, λ e d. refl)
    by_state session_running = (stays-Moves _ _ refl, λ e d. refl)
    by_state session_paused = ask-Moves _ _ _ _ a resumes

close_connection-Moves :
    (ts : TraceSession) (o : Outcome) (closes : Bool)
    → Moves ts o
    → Moves ts (close_connection o closes)
close_connection-Moves ts o closes m =
    if_either (Moves ts) (not o.after.connected) (keep _ refl refl)
      (if_either (Moves ts) closes (keep _ refl refl) (keep _ refl refl))
  where
    keep : (p : Outcome) → p.after.id ≡ o.after.id → p.after.state ≡ o.after.state → Moves ts p
    keep p e d = record { same_id = e ∙ m.same_id; follows = rw d m.follows }

close-Moves : (ts : TraceSession) (a : Answer) (closes : Bool) → Moves ts (close ts a closes)
unfolding close
close-Moves ts a closes = by_state ts.state
  where
    stopping :
        (t : TraceSession)
        → Moves t
            (let o = stop t a in elim o.error [ some e ↦ o | none ↦ close_connection o closes ])
    stopping t =
        let m = (stop-Moves t a).0 in
        option_cases (Moves t) (stop t a).error (λ e. close_connection-Moves t (stop t a) closes m)
          (λ f e. m)

    by_state : (s : SessionState) → (let t = record ts { state = s } in Moves t (close t a closes))
    by_state session_stopped = close_connection-Moves _ _ closes (stays-Moves _ _ refl)
    by_state session_running = stopping (record ts { state = session_running })
    by_state session_paused = stopping (record ts { state = session_paused })

-- Whatever the server answers, an operation leaves the number of a session alone and its state
-- moves only from running to paused and back, or to stopped. If Stop, Pause or Resume gives an
-- error, the session is the one before it.
pub session_steps :
    (ts : TraceSession) (a : Answer) (closes : Bool)
    → (Moves ts (stop ts a) × Keeps ts (stop ts a))
      × (Moves ts (pause ts a) × Keeps ts (pause ts a))
      × (Moves ts (resume ts a) × Keeps ts (resume ts a))
      × Moves ts (close ts a closes)
session_steps ts a closes =
    (stop-Moves ts a, pause-Moves ts a, resume-Moves ts a, close-Moves ts a closes)

stopped_call :
    (ts : TraceSession) (m : Method)
    → ts.state ≡ session_stopped
    → ((call ts m).after.state ≡ session_stopped) × ((call ts m).sent ≡ [])
unfolding stop pause resume close
stopped_call ts m h =
    subst
      (λ s.
        let o = call (record ts { state = s }) m in
        (o.after.state ≡ session_stopped) × (o.sent ≡ []))
      (sym h) (by_method m)
  where
    IsQuiet : Outcome → Type 0
    IsQuiet o = (o.after.state ≡ session_stopped) × (o.sent ≡ [])

    by_method : (m : Method) → IsQuiet (call (record ts { state = session_stopped }) m)
    by_method (stop_method a) = (refl, refl)
    by_method (pause_method a) = (refl, refl)
    by_method (resume_method a) = (refl, refl)
    by_method (close_method a closes) =
        if_either IsQuiet (not ts.connected) (refl, refl)
          (if_either IsQuiet closes (refl, refl) (refl, refl))

-- A stopped session stays stopped whatever methods are called on it, and none of them sends a
-- request.
stopped_is_final :
    (ts : TraceSession) (ms : List Method)
    → ts.state ≡ session_stopped
    → ((call_all ts ms).0.state ≡ session_stopped) × ((call_all ts ms).1 ≡ [])
unfolding call_all
stopped_is_final ts [] h = (h, refl)
stopped_is_final ts (m ∷ ms) h =
    let (s, n) = stopped_call ts m h in
    let (t, k) = stopped_is_final (call ts m).after ms s in (t, rw (n, k))

-- A listing of the sessions that breaks off, after any lines, or that gets no connection, gives
-- what a server with no session gives: an empty text and no error.
list_sessions-broken :
    (lines : List (List ℕ)) (rest : List Line) (starts : Bool)
    → (list_sessions true true (map text lines ++ (broken ∷ rest))
        ≡ list_sessions true true (finish ∷ []))
      × (list_sessions false starts rest ≡ list_sessions true true (finish ∷ []))
unfolding list_sessions list_loop
list_sessions-broken lines rest starts = (read lines [], refl)
  where
    read :
        (lines : List (List ℕ)) (res : List ℕ)
        → list_loop (map text lines ++ (broken ∷ rest)) res ≡ some ([], none)
    read [] res = refl
    read (l ∷ ls) res = read ls (res ++ (l ++ 10 ∷ []))
