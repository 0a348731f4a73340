-- ===== src/Events/Counts.antt =====
-- What the counts of a server's buffer do to those of a subscription.
use firebirdsql_go.Base.{
  ℕ, zero, suc, ◌≤◌, ◌≡◌, refl, ◌∙◌, ap, arith, ℤ, pos, ◌-ℤ◌, false, if◌then◌else◌, Option, none,
  some, List, [], ◌∷◌, ◌++◌, map, length, length-append, length-drop, take, drop, take-append,
  drop-append, ltb, ◌==◌, Bool-cases, Option-cases, inl, inr, bytes_eq, All, IsI32,
}
use firebirdsql_go.Bytes.{int32_to_bytes, bytes_to_int32}
use firebirdsql_go.Bytes.RoundTrip.{int32_round_trip}
use firebirdsql_go.Events.{
  name_past_end, count_truncated, bad_version, Counts, lookup, put, RemoteEvent, EventError,
  note_count, read_counts, Report, report_on, zeroed, get_event_counts, epb_version1, Event,
  is_zero, count_of, changed_events,
}
use firebirdsql_go.Events.Tally.{
  note_all, count_sent, lookup-note_all, absent-note_all, lookup-zeroed,
}

-- The names that are counted.
abbrev pub keys : Counts → List (List ℕ)
keys counts = map (λ p. p.0) counts

keys-zeroed : (counts : Counts) → keys (zeroed counts) ≡ keys counts
keys-zeroed [] = refl
keys-zeroed (p ∷ ps) = ap (λ ks. p.0 ∷ ks) (keys-zeroed ps)

put-keys :
    (name : List ℕ) (v old : ℤ) (counts : Counts)
    → lookup name counts ≡ some old
    → keys (put name v counts) ≡ keys counts
unfolding lookup put
put-keys name v old [] e = cc e
put-keys name v old ((k, w) ∷ m) e = elim (Bool-cases (bytes_eq name k)) [
  | inl same ↦ rw (put, same)
  | inr other ↦
      rw (put, other) (ap (λ ks. k ∷ ks) (put-keys name v old m (rw (lookup, other) at e)))
]

note_count-keys :
    (name : List ℕ) (n : ℤ) (counts : Counts) → keys (note_count name n counts) ≡ keys counts
unfolding note_count
note_count-keys name n counts = elim (Option-cases (lookup name counts)) [
  | inl absent ↦ rw (note_count, absent)
  | inr (old, e) ↦ rw (note_count, e) (put-keys name _ old counts e)
]

-- Four bytes give a number.
four_bytes : (bs : List ℕ) → 4 ≤ length bs → (n : ℤ) × (bytes_to_int32 bs ≡ some n)
unfolding bytes_to_int32
four_bytes [] h = absurd (omega arith)
four_bytes (a ∷ []) h = absurd (omega arith)
four_bytes (a ∷ b ∷ []) h = absurd (omega arith)
four_bytes (a ∷ b ∷ c ∷ []) h = absurd (omega arith)
four_bytes (a ∷ b ∷ c ∷ d ∷ rest) h = (_, refl)

read_counts_total :
    (fuel : ℕ) (bs : List ℕ) (counts : Counts)
    → length bs ≤ fuel
    → (after : Counts) × (f : Option EventError) × (read_counts fuel bs counts ≡ some (after, f))
      × (keys after ≡ keys counts)
unfolding read_counts
read_counts_total fuel [] counts h = (counts, none, refl, refl)
read_counts_total zero (ln ∷ rest) counts h = absurd (omega arith)
read_counts_total (suc fuel) (ln ∷ rest) counts h = elim (Bool-cases (ltb (length rest) ln)) [
  | inl cut ↦ (counts, some name_past_end, rw cut, refl)
  | inr named ↦ elim (Bool-cases (ltb (length (drop ln rest)) 4)) [
    | inl cut ↦ (counts, some count_truncated, rw (named, cut), refl)
    | inr counted ↦
        let (n, e) = four_bytes (drop ln rest) (ground arith) in
        let (after, f, d, k) =
          read_counts_total fuel (drop 4 (drop ln rest)) (note_count (take ln rest) n counts)
            (omega (arith, length-drop 4 (drop ln rest), length-drop ln rest)) in
        (after, f, rw (named, counted, e, d), k ∙ note_count-keys (take ln rest) n counts)
  ]
]

-- On every buffer the reader of event counts returns, without a panic, and the names that it
-- counts and waits for are the same as before, also if the buffer is malformed.
get_event_counts_total :
    (bytes : List ℕ) (e : RemoteEvent)
    → (r : Report) × (get_event_counts bytes e ≡ some r)
      × (keys r.after.counts ≡ keys e.counts)
      × (r.after.events ≡ e.events)
unfolding get_event_counts report_on
get_event_counts_total [] e = (_, refl, refl, refl)
get_event_counts_total (version ∷ records) e = elim (Bool-cases (version == epb_version1)) [
  | inr other ↦ (record { after = e; found = []; failure = some bad_version }, rw other, refl, refl)
  | inl same ↦
      let (after, f, d, k) =
        read_counts_total (length records) records (zeroed e.counts) (omega arith) in
      let (a, b) = reported after f (k ∙ keys-zeroed e.counts) in
      (report_on e (after, f), rw (same, d), a, b)
]
  where
    reported :
        (after : Counts) (f : Option EventError)
        → keys after ≡ keys e.counts
        → (let r = report_on e (after, f) in
            (keys r.after.counts ≡ keys e.counts) × (r.after.events ≡ e.events))
    reported after none k = (k, refl)
    reported after (some f) k = (k, refl)

-- The records of a server.
abbrev pub encode_records : List (List ℕ × ℤ) → List ℕ
encode_records [] = []
encode_records ((name, n) ∷ rs) = length name ∷ (name ++ (int32_to_bytes n ++ encode_records rs))

read_counts-encode_records :
    (fuel : ℕ) (rs : List (List ℕ × ℤ)) (counts : Counts)
    → All (λ p. IsI32 p.1) rs
    → length (encode_records rs) ≤ fuel
    → read_counts fuel (encode_records rs) counts ≡ some (note_all rs counts, none)
unfolding read_counts int32_to_bytes
read_counts-encode_records fuel [] counts h lt = refl
read_counts-encode_records zero ((name, n) ∷ rs) counts h lt = absurd (omega arith)
read_counts-encode_records (suc fuel) ((name, n) ∷ rs) counts h lt =
    rw
      (
        read_counts,
        whole_name,
        drop-append name (int32_to_bytes n ++ encode_records rs),
        whole_count,
        int32_round_trip n (encode_records rs) h.0,
        take-append name (int32_to_bytes n ++ encode_records rs),
        drop_count,
      )
      (read_counts-encode_records fuel rs (note_count name n counts) h.1 shorter)
  where
    whole_name :
        ltb (length (name ++ (int32_to_bytes n ++ encode_records rs))) (length name) ≡ false
    whole_name = ground (arith, length-append name (int32_to_bytes n ++ encode_records rs))

    whole_count : ltb (length (int32_to_bytes n ++ encode_records rs)) 4 ≡ false
    whole_count = ground arith

    drop_count : drop 4 (int32_to_bytes n ++ encode_records rs) ≡ encode_records rs
    drop_count = refl

    shorter : length (encode_records rs) ≤ fuel
    shorter = omega (arith, length-append name (int32_to_bytes n ++ encode_records rs), lt)

-- What the counts become: those of the names that are waited for, and no others.
abbrev pub counted : List ℕ → List (List ℕ × ℤ) → Counts → Option ℤ
counted name rs counts = elim (lookup name counts) [
  | none ↦ none
  | some old ↦ some (count_sent name rs)
]

lookup-after :
    (name : List ℕ) (rs : List (List ℕ × ℤ)) (counts : Counts)
    → lookup name (note_all rs (zeroed counts)) ≡ counted name rs counts
lookup-after name rs counts = elim (Option-cases (lookup name counts)) [
  | inl absent ↦
      rw (counted, absent)
        (absent-note_all name rs (zeroed counts) (lookup-zeroed name counts ∙ rw absent refl))
  | inr (old, there) ↦
      rw (counted, there)
        (lookup-note_all name rs (zeroed counts) (pos 0)
          (lookup-zeroed name counts ∙ rw there refl))
]

abbrev pub or_zero : Option ℤ → ℤ
or_zero none = pos 0
or_zero (some n) = n

-- The events to report: the names whose count is another than before, with the difference.
abbrev pub report_change : RemoteEvent → List ℕ → ℤ → ℤ → List Event → List Event
report_change e name now before rest =
    if is_zero (now -ℤ before)
    then rest
    else record { name = name; count = now -ℤ before; event_id = e.id; remote_id = e.rid } ∷ rest

abbrev pub changes : RemoteEvent → List (List ℕ × ℤ) → List (List ℕ) → List Event
changes e rs [] = []
changes e rs (name ∷ names) =
    report_change e name (or_zero (counted name rs e.counts)) (or_zero (lookup name e.counts))
      (changes e rs names)

changed_events-changes :
    (e : RemoteEvent) (rs : List (List ℕ × ℤ)) (names : List (List ℕ))
    → changed_events
        (record e { prev_counts = e.counts; counts = note_all rs (zeroed e.counts) })
        names
      ≡ changes e rs names
unfolding changed_events count_of
changed_events-changes e rs [] = refl
changed_events-changes e rs (name ∷ names) =
    ap
      (λ o. report_change e name (or_zero o) (or_zero (lookup name e.counts)) (
        changed_events (record e { prev_counts = e.counts; counts = note_all rs (zeroed e.counts) })
          names))
      (lookup-after name rs e.counts)
    ∙ ap
        (report_change e name (or_zero (counted name rs e.counts)) (or_zero (lookup name e.counts)))
        (changed_events-changes e rs names)

-- From an event buffer as a server writes it, whose numbers are int32, the reader gives no error.
-- The count of each name that is waited for is one less than the last number that was sent for it,
-- as an int32, or 0 if there was none, and other names are not counted. It keeps the counts before
-- as the previous ones, and reports exactly the events whose count differs from those, in the order
-- of the subscription, with the difference.
pub get_event_counts-encode_records :
    (rs : List (List ℕ × ℤ)) (e : RemoteEvent)
    → All (λ p. IsI32 p.1) rs
    → (r : Report) × (get_event_counts (epb_version1 ∷ encode_records rs) e ≡ some r)
      × (r.failure ≡ none)
      × ((name : List ℕ) → lookup name r.after.counts ≡ counted name rs e.counts)
      × (r.after.prev_counts ≡ e.counts)
      × (r.found ≡ changes e rs e.events)
unfolding get_event_counts report_on
get_event_counts-encode_records rs e h = (
  report_on e (note_all rs (zeroed e.counts), none),
  rw (read_counts-encode_records (length (encode_records rs)) rs (zeroed e.counts) h (omega arith))
      refl,
  refl,
  λ name. lookup-after name rs e.counts,
  refl,
  changed_events-changes e rs e.events,
)
