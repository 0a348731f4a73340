-- ===== src/Events/Tests.antt =====
-- Events at concrete values.
use firebirdsql_go.Base.{
  ℕ, ◌≡◌, refl, arith, ℤ, pos, true, false, none, some, bytes_eq, ◌-ℤ◌, List, [], ◌∷◌, bytes_of,
}
use firebirdsql_go.Bytes.{int32_to_bytes, bytes_to_int32}
use firebirdsql_go.Events.{
  RemoteEvent, cancel_events, get_event_counts, Report, lookup, epb_version1,
}
use firebirdsql_go.Events.Counts.{encode_records, counted, changes, get_event_counts-encode_records}

abbrev fresh : RemoteEvent
fresh = record {
  id = pos 1;
  rid = pos 2;
  events = [];
  counts = [];
  prev_counts = [];
  running = false;
}

abbrev names : List (List ℕ)
names = bytes_of "a" ∷ bytes_of "bc" ∷ []

abbrev waiting : RemoteEvent
waiting = record fresh {
  events = names;
  counts = (bytes_of "a", pos 0) ∷ (bytes_of "bc", pos 3) ∷ [];
  prev_counts = (bytes_of "a", pos 0) ∷ (bytes_of "bc", pos 0) ∷ [];
  running = true;
}

abbrev posted : List (List ℕ × ℤ)
posted = (bytes_of "a", pos 3) ∷ (bytes_of "x", pos 9) ∷ (bytes_of "bc", pos 4) ∷ []

-- Twice "a", and "bc" as often as before.
two_posts :
    get_event_counts (epb_version1 ∷ encode_records posted) waiting
    ≡ some (record {
      after = record waiting {
        counts = (bytes_of "a", pos 2) ∷ (bytes_of "bc", pos 3) ∷ [];
        prev_counts = waiting.counts;
      };
      found =
          record { name = bytes_of "a"; count = pos 2; event_id = pos 1; remote_id = pos 2 } ∷ [];
      failure = none;
    })
unfolding get_event_counts int32_to_bytes bytes_to_int32 bytes_eq ◌-ℤ◌
two_posts = refl

-- A cancelled subscription is a fresh one.
cancelled : cancel_events waiting ≡ fresh
unfolding cancel_events
cancelled = refl

get_event_counts-encode_records_example :
    (r : Report) × (get_event_counts (epb_version1 ∷ encode_records posted) waiting ≡ some r)
    × (r.failure ≡ none)
    × ((name : List ℕ) → lookup name r.after.counts ≡ counted name posted waiting.counts)
    × (r.after.prev_counts ≡ waiting.counts)
    × (r.found ≡ changes waiting posted names)
get_event_counts-encode_records_example =
    get_event_counts-encode_records posted waiting (omega arith, (omega arith, (omega arith, tt)))
