-- ===== src/Services/Info/Safety.antt =====
-- No answer of a service makes the code that reads it panic.
use firebirdsql_go.Base.{
  ℕ, ◌+◌, ◌-◌, ◌*◌, ◌^◌, ◌≡◌, ◌≢◌, arith, true, false, Option, none, some, List, [], ◌∷◌, length,
  take, drop, inl, inr, leb, ltb, ◌==◌, Bool-cases, bytes_eq, if_either, if_cases, not,
  if◌then◌else◌,
}
use firebirdsql_go.Xpb.{XpbReader, Read, new_reader, slice, Failure}
use firebirdsql_go.Xpb.Bounds.{Safe, get_int16-Safe, get_string-Safe}
use firebirdsql_go.Services.Consts.{
  isc_info_svc_line, isc_info_svc_to_eof, isc_info_truncated, isc_info_svc_timeout, isc_info_end,
}
use firebirdsql_go.Services.Info.Chunks.{word_slice}
use firebirdsql_go.Services.Info.Stream.{
  pass, max_wire_payload, Pass, Status, finished, failed, wait_buffer, chunk_pass, or_panic, again,
  last, send,
}
use firebirdsql_go.Bytes.{bytes_to_uint16}
use firebirdsql_go.Services.Info.{
  Info, value, error, panic, reader, end_of_stream, over_buffer, get_service_info, with_err,
  get_service_info_int, get_service_info_string, get_line, ◌>>=◌,
}

-- A result, or an error of the code.
abbrev pub NoPanic : {A : Type 0} → Info A → Type 0
NoPanic i = i ≢ error panic

bind-NoPanic :
    {A B : Type 0} (i : Info A) (f : A → Info B)
    → NoPanic i
    → ((a : A) → NoPanic (f a))
    → NoPanic (i >>= f)
bind-NoPanic (value a) f h k = k a
bind-NoPanic (error e) f h k = λ d. h (cc d)

with_err-NoPanic : {A : Type 0} (r : XpbReader) (m : Read A) → Safe r m → NoPanic (with_err m)
with_err-NoPanic r m (q, a, e, k) = rw e (by_err q.err)
  where
    by_err : (o : Option Failure) → NoPanic (elim o [ none ↦ value a | some f ↦ error (reader f) ])
    by_err none = λ d. cc d
    by_err (some f) = λ d. cc d

get_service_info-NoPanic :
    (response : Option (List ℕ)) (item : ℕ) → NoPanic (get_service_info response item)
unfolding get_service_info
get_service_info-NoPanic none item = λ d. cc d
get_service_info-NoPanic (some []) item = λ d. cc d
get_service_info-NoPanic (some (b ∷ bs)) item =
    if_either NoPanic (b == item) (λ d. cc d) (λ d. cc d)

-- The slice behind the length word, which the test before it bounds.
bounded_slice :
    (buf : List ℕ) (n : ℕ)
    → ltb (length buf) (3 + n) ≡ false
    → (s : List ℕ) × (slice buf 3 (3 + n) ≡ some s)
bounded_slice buf n e = (take (3 + n - 3) (drop 3 buf), rw (slice, low, high))
  where
    low : leb 3 (3 + n) ≡ true
    low = ground arith

    high : leb (3 + n) (length buf) ≡ true
    high = ground (arith, e)

chunk_pass-NoPanic : (buf : List ℕ) (room : ℕ) → NoPanic (chunk_pass buf room)
unfolding chunk_pass bytes_to_uint16
chunk_pass-NoPanic [] room = λ d. cc d
chunk_pass-NoPanic (a ∷ []) room = λ d. cc d
chunk_pass-NoPanic (a ∷ b ∷ []) room = λ d. cc d
chunk_pass-NoPanic (a ∷ b ∷ c ∷ []) room = λ d. cc d
chunk_pass-NoPanic (a ∷ b ∷ c ∷ d ∷ rest) room =
    if_either NoPanic (ltb (length (a ∷ b ∷ c ∷ d ∷ rest)) 4) (λ e. cc e)
      (rw (word_slice a b c (d ∷ rest)) (with_length (b + 2 ^ 8 * c)))
  where
    with_length :
        (n : ℕ)
        → NoPanic (
            if n == 0
            then (if d == isc_info_svc_timeout
                then value (again room)
                else if not (d == isc_info_end)
                then error end_of_stream
                else value last)
            else if ltb (length (a ∷ b ∷ c ∷ d ∷ rest)) (3 + n)
            then error over_buffer
            else (or_panic (slice (a ∷ b ∷ c ∷ d ∷ rest) 3 (3 + n)) >>= λ chunk.
                value (send chunk)))
    with_length n =
        if_either NoPanic (n == 0)
          (if_either NoPanic (d == isc_info_svc_timeout) (λ e. cc e)
            (if_either NoPanic (not (d == isc_info_end)) (λ e. cc e) (λ e. cc e)))
          (if_cases NoPanic (ltb (length (a ∷ b ∷ c ∷ d ∷ rest)) (3 + n)) (λ t e. cc e)
            (λ fits. let (s, e) = bounded_slice (a ∷ b ∷ c ∷ d ∷ rest) n fits in rw e (λ e. cc e)))

pass-NoPanic : (b : ℕ) (bs : List ℕ) (room : ℕ) → NoPanic (pass (b ∷ bs) room)
unfolding pass
pass-NoPanic b bs room =
    if_either NoPanic (b == isc_info_svc_to_eof) (chunk_pass-NoPanic (b ∷ bs) room) (
      if_either NoPanic (b == isc_info_truncated)
        (if_either NoPanic (leb max_wire_payload room) (λ e. cc e) (λ e. cc e))
        (if_either NoPanic (b == isc_info_end) (λ e. cc e) (λ e. cc e)))

response_pass-NoPanic :
    (r : Option (List ℕ)) (room : ℕ)
    → NoPanic (get_service_info r isc_info_svc_to_eof >>= λ buf. pass buf room)
unfolding get_service_info
response_pass-NoPanic none room = λ d. cc d
response_pass-NoPanic (some []) room = λ d. cc d
response_pass-NoPanic (some (b ∷ bs)) room = elim (Bool-cases (b == isc_info_svc_to_eof)) [
  | inl e ↦ rw e (pass-NoPanic b bs room)
  | inr e ↦ rw e (λ d. cc d)
]

wait_buffer-NoPanic :
    (rs : List (Option (List ℕ))) (room : ℕ) → (wait_buffer rs room).1 ≢ failed panic
unfolding wait_buffer
wait_buffer-NoPanic [] room = λ d. cc d
wait_buffer-NoPanic (r ∷ rs) room =
    by_pass (λ k. wait_buffer-NoPanic rs k) _ (response_pass-NoPanic r room)
  where
    by_pass :
        ((k : ℕ) → (wait_buffer rs k).1 ≢ failed panic)
        → (i : Info Pass) → NoPanic i
        → (elim i as (λ x. List (List ℕ) × Status) [
          | error e ↦ ([], failed e)
          | value last ↦ ([], finished)
          | value (again more) ↦ wait_buffer rs more
          | value (send chunk) ↦ let (sent, s) = wait_buffer rs room in (chunk ∷ sent, s)
        ]).1
          ≢ failed panic
    by_pass later (error e) n = λ d. n (cc d)
    by_pass later (value last) n = λ d. cc d
    by_pass later (value (again more)) n = later more
    by_pass later (value (send chunk)) n = later room

-- Whatever a service answers, reading a number, a string or a line of it does not panic, and
-- neither does the loop over its stream.
pub answers_never_panic :
    (response : Option (List ℕ)) (item : ℕ) (rs : List (Option (List ℕ))) (room : ℕ)
    → NoPanic (get_service_info_int response item)
      × NoPanic (get_service_info_string response item)
      × NoPanic (get_line response)
      × ((wait_buffer rs room).1 ≢ failed panic)
unfolding get_service_info_int get_service_info_string get_line
answers_never_panic response item rs room = (
  bind-NoPanic _ _ (get_service_info-NoPanic response item)
      (λ buf. with_err-NoPanic _ _ (get_int16-Safe (new_reader (drop 1 buf)))),
  bind-NoPanic _ _ (get_service_info-NoPanic response item)
      (λ buf. with_err-NoPanic _ _ (get_string-Safe (new_reader (drop 1 buf)))),
  bind-NoPanic _ _ (get_service_info-NoPanic response isc_info_svc_line) (λ buf.
      if_either NoPanic (ltb (length buf) 4) (λ d. cc d)
        (if_either NoPanic (bytes_eq (take 4 buf) _) (λ d. cc d)
          (bind-NoPanic _ _ (with_err-NoPanic _ _ (get_string-Safe (new_reader (drop 1 buf))))
            (λ s d. cc d)))),
  wait_buffer-NoPanic rs room,
)
