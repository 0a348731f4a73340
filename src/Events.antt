-- ===== src/Events.antt =====
-- remoteEvent.go: the events that a subscription waits for, and their counts. Go's map from a name
-- to a count is a list of pairs, and its locks are left out: a call is one step.
pub mod Tally
pub mod Counts
pub mod Queue
mod Tests
use firebirdsql_go.Base.{
  ℕ, zero, suc, ◌+◌, ◌%◌, ℤ, pos, negsuc, ◌+ℤ◌, ◌-ℤ◌, Bool, true, false, not, Option, none, some,
  List, [], ◌∷◌, ◌++◌, map, length, take, drop, u32, i32, leb, ltb, ◌==◌, bytes_eq, if◌then◌else◌,
  ◌>>=◌,
}
use firebirdsql_go.Bytes.{int32_to_bytes, bytes_to_int32}

abbrev pub Counts : Type 0
Counts = List (List ℕ × ℤ)

-- Go's `m[key]`, with whether the key is there.
unfoldable pub lookup : List ℕ → Counts → Option ℤ
lookup key [] = none
lookup key ((k, v) ∷ m) = if bytes_eq key k then some v else lookup key m

-- `m[key]`, which is 0 for a key that is not there.
unfoldable pub count_of : List ℕ → Counts → ℤ
unfolding lookup
count_of key m = elim (lookup key m) [ none ↦ pos 0 | some v ↦ v ]

-- `m[key] = v`.
unfoldable pub put : List ℕ → ℤ → Counts → Counts
put key v [] = (key, v) ∷ []
put key v ((k, w) ∷ m) =
    let rest = put key v m in if bytes_eq key k then (k, v) ∷ m else (k, w) ∷ rest

pub record RemoteEvent : Type 0 where
  pub id : ℤ
  pub rid : ℤ
  pub events : List (List ℕ)
  pub counts : Counts
  pub prev_counts : Counts
  pub running : Bool

-- `EPB_version1` and the limits of remoteEvent.go.
abbrev pub epb_version1 : ℕ
epb_version1 = 1

abbrev pub max_epb_length : ℕ
max_epb_length = 65535

abbrev pub max_event_name_length : ℕ
max_event_name_length = 255

unfoldable pub build_epb_records : List (List ℕ) → Counts → List ℕ
unfolding count_of
build_epb_records [] counts = []
build_epb_records (event ∷ events) counts =
    length event % 256
    ∷ (event
        ++ (int32_to_bytes (i32 (u32 (count_of event counts +ℤ pos 1)))
            ++ build_epb_records events counts))

unfoldable pub build_epb_slice : List (List ℕ) → Counts → List ℕ
unfolding build_epb_records
build_epb_slice events counts = epb_version1 ∷ build_epb_records events counts

unfoldable pub build_epb : RemoteEvent → List ℕ
unfolding build_epb_slice
build_epb e = build_epb_slice e.events e.counts

pub data EventError : Type 0 where
  already_running event_needed wrong_length buffer_too_large : EventError
  bad_version name_past_end count_truncated : EventError

abbrev pub too_long : List (List ℕ) → Bool
too_long [] = false
too_long (event ∷ events) =
    if ltb max_event_name_length (length event) then true else too_long events

-- The loop that adds the names.
unfoldable pub register : List (List ℕ) → RemoteEvent → RemoteEvent
unfolding put
register [] e = e
register (event ∷ events) e = register events (record e {
  events = e.events ++ event ∷ [];
  counts = put event (pos 0) e.counts;
  prev_counts = put event (pos 0) e.prev_counts;
})

unfoldable pub queue_events : List (List ℕ) → RemoteEvent → RemoteEvent × Option EventError
unfolding build_epb_slice register
queue_events events e =
    if e.running
    then (e, some already_running)
    else if length events == 0
    then (e, some event_needed)
    else if too_long events
    then (e, some wrong_length)
    else if ltb max_epb_length (length (build_epb_slice events []))
    then (e, some buffer_too_large)
    else (register events (record e { running = true; counts = []; prev_counts = [] }), none)

unfoldable pub cancel_events : RemoteEvent → RemoteEvent
cancel_events e = record e { events = []; counts = []; prev_counts = []; running = false }

-- A count as the server sends it: `int(bytes_to_int32(data[i:]) - 1)` wraps at 32 bits. A name that
-- is not waited for is passed over.
unfoldable pub note_count : List ℕ → ℤ → Counts → Counts
unfolding lookup put
note_count name n counts = elim (lookup name counts) [
  | none ↦ counts
  | some old ↦ put name (i32 (u32 (n -ℤ pos 1))) counts
]

-- The loop over the records. No result is a panic or spent fuel.
unfoldable pub read_counts : ℕ → List ℕ → Counts → Option (Counts × Option EventError)
unfolding note_count
read_counts fuel [] counts = some (counts, none)
read_counts zero (ln ∷ rest) counts = none
read_counts (suc fuel) (ln ∷ rest) counts =
    if ltb (length rest) ln
    then some (counts, some name_past_end)
    else if ltb (length (drop ln rest)) 4
    then some (counts, some count_truncated)
    else (bytes_to_int32 (drop ln rest) >>= λ n.
        read_counts fuel (drop 4 (drop ln rest)) (note_count (take ln rest) n counts))

-- An event with the number of times that it was posted since the last time.
pub record Event : Type 0 where
  pub name : List ℕ
  pub count : ℤ
  pub event_id : ℤ
  pub remote_id : ℤ

abbrev pub is_zero : ℤ → Bool
is_zero (pos zero) = true
is_zero (pos (suc n)) = false
is_zero (negsuc n) = false

unfoldable pub changed_events : RemoteEvent → List (List ℕ) → List Event
unfolding count_of
changed_events e [] = []
changed_events e (name ∷ names) =
    let count = count_of name e.counts -ℤ count_of name e.prev_counts in
    let rest = changed_events e names in
    if is_zero count
    then rest
    else record { name = name; count = count; event_id = e.id; remote_id = e.rid } ∷ rest

-- What `getEventCounts` leaves and returns.
pub record Report : Type 0 where
  pub after : RemoteEvent
  pub found : List Event
  pub failure : Option EventError

abbrev pub zeroed : Counts → Counts
zeroed counts = map (λ p. (p.0, pos 0)) counts

unfoldable pub report_on : RemoteEvent → Counts × Option EventError → Report
unfolding changed_events
report_on e (counts, some f) = record {
  after = record e { prev_counts = e.counts; counts = counts };
  found = [];
  failure = some f;
}
report_on e (counts, none) =
    let after = record e { prev_counts = e.counts; counts = counts } in
    record { after = after; found = changed_events after e.events; failure = none }

unfoldable pub get_event_counts : List ℕ → RemoteEvent → Option Report
unfolding read_counts report_on
get_event_counts [] e = some (record { after = e; found = []; failure = some bad_version })
get_event_counts (version ∷ records) e =
    if not (version == epb_version1)
    then some (record { after = e; found = []; failure = some bad_version })
    else (read_counts (length records) records (zeroed e.counts) >>= λ r. some (report_on e r))
