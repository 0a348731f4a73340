-- ===== src/Events/Queue.antt =====
-- What a subscription accepts, and the parameter block that it then sends.
use firebirdsql_go.Base.{
  ap, ◌⊎◌, ℕ, suc, ◌≤◌, ◌≡◌, refl, ◌∙◌, sym, arith, true, false, none, some, List, [], ◌∷◌, ◌++◌,
  append_assoc, append-nil, length, length-append, ltb, ◌==◌, Bool-cases, inl, inr, All,
}
use firebirdsql_go.Bytes.{int32_to_bytes}
use firebirdsql_go.Events.{
  Counts, RemoteEvent, EventError, already_running, event_needed, wrong_length, buffer_too_large,
  max_epb_length, max_event_name_length, too_long, register, build_epb_records, build_epb_slice,
  build_epb, queue_events,
}

-- The length of a block does not depend on the counts.
length-records :
    (events : List (List ℕ)) (counts others : Counts)
    → length (build_epb_records events counts) ≡ length (build_epb_records events others)
unfolding build_epb_records int32_to_bytes
length-records [] counts others = refl
length-records (event ∷ events) counts others = omega (
  arith,
  length-records events counts others,
  length-append event (int32_to_bytes _ ++ build_epb_records events counts),
  length-append event (int32_to_bytes _ ++ build_epb_records events others),
)

register-events :
    (events : List (List ℕ)) (e : RemoteEvent)
    → ((register events e).events ≡ e.events ++ events) × ((register events e).running ≡ e.running)
unfolding register
register-events [] e = (sym (append-nil e.events), refl)
register-events (event ∷ events) e =
    let (a, b) = register-events events _ in (a ∙ append_assoc e.events (event ∷ []) events, b)

short_names :
    (events : List (List ℕ))
    → too_long events ≡ false
    → All (λ name. length name ≤ max_event_name_length) events
short_names [] h = tt
short_names (event ∷ events) h = elim (Bool-cases (ltb max_event_name_length (length event))) [
  | inl long ↦ cc (rw long at h)
  | inr short ↦ (ground arith, short_names events (rw short at h))
]

-- An accepted list of events: the names fit their length byte, and the block its limit.
pub record Accepted (events : List (List ℕ)) (e after : RemoteEvent) : Type 0 where
  pub was_idle : e.running ≡ false
  pub is_running : after.running ≡ true
  pub added : after.events ≡ e.events ++ events
  pub names_fit : All (λ name. length name ≤ max_event_name_length) events
  pub block_fits : e.events ≡ [] → length (build_epb after) ≤ max_epb_length

-- The subscription with the events of an accepted list.
abbrev accepting : List (List ℕ) → RemoteEvent → RemoteEvent
accepting events e = register events (record e { running = true; counts = []; prev_counts = [] })

accepting-Accepted :
    (events : List (List ℕ)) (e : RemoteEvent)
    → e.running ≡ false
    → too_long events ≡ false
    → ltb max_epb_length (length (build_epb_slice events [])) ≡ false
    → Accepted events e (accepting events e)
unfolding build_epb build_epb_slice
accepting-Accepted events e idle short small = record {
  was_idle = idle;
  is_running = (register-events events _).1;
  added = (register-events events _).0;
  names_fit = short_names events short;
  block_fits = λ fresh. fits (accepting events e).events (accepting events e).counts (
      (register-events events (record e { running = true; counts = []; prev_counts = [] })).0
      ∙ ap (λ names. names ++ events) fresh);
}
  where
    within : (n m : ℕ) → n ≡ m → ltb max_epb_length (suc n) ≡ false → suc m ≤ max_epb_length
    within n m same h = ground arith

    fits :
        (names : List (List ℕ)) (counts : Counts)
        → names ≡ events
        → length (build_epb_slice names counts) ≤ max_epb_length
    fits names counts same =
        rw same
          (within (length (build_epb_records events [])) _ (length-records events [] counts) small)

-- Queueing events leaves the subscription as it was, with an error, or accepts them: the
-- subscription was idle and now runs, the events are added, each name fits its length byte, and
-- if there were none before, the block that is sent is at most 65535 bytes long, whatever the
-- counts.
queue_events_outcome :
    (events : List (List ℕ)) (e : RemoteEvent)
    → ((f : EventError) × (queue_events events e ≡ (e, some f)))
      ⊎ ((after : RemoteEvent) × (queue_events events e ≡ (after, none)) × Accepted events e after)
unfolding queue_events
queue_events_outcome events e = elim (Bool-cases e.running) [
  | inl busy ↦ inl (already_running, rw (queue_events, busy))
  | inr idle ↦ elim (Bool-cases (length events == 0)) [
    | inl empty ↦ inl (event_needed, rw (queue_events, idle, empty))
    | inr some_event ↦ elim (Bool-cases (too_long events)) [
      | inl long ↦ inl (wrong_length, rw (queue_events, idle, some_event, long))
      | inr short ↦ elim (Bool-cases (ltb max_epb_length (length (build_epb_slice events [])))) [
        | inl large ↦ inl (buffer_too_large, rw (queue_events, idle, some_event, short, large))
        | inr small ↦ inr (
          accepting events e,
          rw (queue_events, idle, some_event, short, small),
          accepting-Accepted events e idle short small,
        )
      ]
    ]
  ]
]
