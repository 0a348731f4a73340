-- ===== src/Wire/Response/Answer.antt =====
-- `opResponse` of wireprotocol.go, when no lazy response is outstanding: `lazyResponseCount` is 0 once
-- a response was read without an error. What it sends meanwhile goes out or not, as `goes_out` says
-- for what is still to come from the server.
use firebirdsql_go.Base.{
  ℕ, zero, suc, ◌+◌, ◌-◌, ◌≤◌, ◌<◌, ◌≡◌, refl, arith, ℤ, Bool, List, [], ◌∷◌, ◌++◌, length,
  length-take, length-drop, length-append, length-replicate, take, drop, replicate, leb, if_cases,
  if_either, if◌then◌else◌, ltb, ap,
}
use firebirdsql_go.Bytes.{bytes_to_bint32}
use firebirdsql_go.Wire.{
  closed, refused, stuck, Result, ok, err, Recv, Stream, ◌>>=◌, fault, or_panic, recv_packets,
  recv_alignment, checked_length,
}
use firebirdsql_go.Wire.Safety.{
  Safe, weaken, bind-Safe, recv_packets-Safe, recv_alignment-Safe, checked_length-Safe, word_of,
}
use firebirdsql_go.Wire.Status.{is_arg, parse_status_vector}
use firebirdsql_go.Wire.Status.Safety.{parse_status_vector-Safe}
use firebirdsql_go.Wire.Response.{Response, response_buffer, parse_op_response}

-- `b, _ = p.recvPackets(n)`: without its error, what came and zeros behind it.
unfoldable pub recv_ignoring : ℕ → Stream → List ℕ × Stream
recv_ignoring n s =
    if leb n (length s) then (take n s, drop n s) else (s ++ replicate (n - length s) 0, [])

-- The loop over op_dummy, 71, on the bytes of a code.
unfoldable pub skip_dummies : ℕ → List ℕ → Recv (List ℕ)
skip_dummies zero b = fault stuck
skip_dummies (suc fuel) b = or_panic (bytes_to_bint32 b) >>= λ c s.
    let next = recv_ignoring 4 s in
    let more = skip_dummies fuel next.0 next.1 in if is_arg c 71 then more else ok (b, s)

-- The loop over op_crypt_key_callback, 97: it answers, and drops three words.
unfoldable pub answer_callbacks : (Stream → Bool) → ℕ → List ℕ → Recv (List ℕ)
answer_callbacks goes_out zero b = fault stuck
answer_callbacks goes_out (suc fuel) b = or_panic (bytes_to_bint32 b) >>= λ c s.
    let next = recv_ignoring 4 (recv_ignoring 12 s).1 in
    let more = answer_callbacks goes_out fuel next.0 next.1 in
    if is_arg c 97 then if goes_out s then more else err closed else ok (b, s)

module _ (errmsgs : ℤ → List ℕ) (gds_to_sql_state : ℤ → List ℕ) (gds_to_sql_code : ℤ → ℤ)
    (goes_out : Stream → Bool) where
  -- Behind the loops op_response, 9, is parsed; op_cont_auth and the others are errors. The fuel is
  -- enough, since a loop ends when nothing is left: four zeros are none of its codes.
  unfoldable pub op_response : Recv Response
  op_response = recv_packets 4 >>= λ b. (λ s. skip_dummies (length s + 2) b s) >>= λ b1.
      (λ s. answer_callbacks goes_out (length s + 2) b1 s) >>= λ b2.
      or_panic (bytes_to_bint32 b2) >>= λ c.
      if is_arg c 9
      then parse_op_response errmsgs gds_to_sql_state gds_to_sql_code
      else fault refused

recv_ignoring-length :
    (n : ℕ) (s : Stream)
    → (length (recv_ignoring n s).0 ≡ n) × (length (recv_ignoring n s).1 ≡ length s - n)
unfolding recv_ignoring
recv_ignoring-length n s =
    if_cases {A = List ℕ × Stream} (λ r. (length r.0 ≡ n) × (length r.1 ≡ length s - n))
      (leb n (length s))
      (λ fits. (ground (arith, length-take n s), ground (arith, length-drop n s)))
      (λ short. (
        ground (
          arith,
          length-append s (replicate (n - length s) 0),
          length-replicate {A = ℕ} (n - length s) 0,
        ),
        ground arith,
      ))

-- Four bytes, and no more of the stream than there was.
abbrev Code : Stream → List ℕ → Stream → Type 0
Code s b rest = (length b ≡ 4) × (length rest ≤ length s)

-- Nothing is left: the next code is 0.
dummies_end :
    (fuel : ℕ)
    → 0 < fuel
    → Safe (Code []) (skip_dummies fuel (recv_ignoring 4 []).0 (recv_ignoring 4 []).1)
unfolding skip_dummies recv_ignoring bytes_to_bint32
dummies_end zero lt = absurd (omega arith)
dummies_end (suc fuel) lt = (refl, omega arith)

callbacks_end :
    (goes_out : Stream → Bool) (fuel : ℕ)
    → 0 < fuel
    → (let next = recv_ignoring 4 (recv_ignoring 12 []).1 in
        Safe (Code []) (answer_callbacks goes_out fuel next.0 next.1))
unfolding answer_callbacks recv_ignoring bytes_to_bint32
callbacks_end goes_out zero lt = absurd (omega arith)
callbacks_end goes_out (suc fuel) lt = (refl, omega arith)

skip_dummies-Safe :
    (fuel : ℕ) (b : List ℕ) (s : Stream)
    → length b ≡ 4
    → length s + 1 < fuel
    → Safe (Code s) (skip_dummies fuel b s)
unfolding skip_dummies
skip_dummies-Safe zero b s h lt = absurd (omega arith)
skip_dummies-Safe (suc fuel) b [] h lt =
    let (z, e) = word_of b h in
    rw (e, Safe)
      (if_cases {A = Result (List ℕ × Stream)} (Safe (Code [])) (is_arg z 71)
        (λ _. dummies_end fuel (omega arith)) (λ _. (h, omega arith)))
skip_dummies-Safe (suc fuel) b (c ∷ s) h lt =
    let (z, e) = word_of b h in
    let (four, left) = recv_ignoring-length 4 (c ∷ s) in
    rw (e, Safe)
      (if_cases {A = Result (List ℕ × Stream)} (Safe (Code (c ∷ s))) (is_arg z 71)
        (λ _.
          weaken (skip_dummies fuel (recv_ignoring 4 (c ∷ s)).0 (recv_ignoring 4 (c ∷ s)).1)
            (λ d rest p. (p.0, omega (arith, p.1, left)))
            (skip_dummies-Safe fuel (recv_ignoring 4 (c ∷ s)).0 (recv_ignoring 4 (c ∷ s)).1 four
              (omega (arith, left, lt))))
        (λ _. (h, omega arith)))

answer_callbacks-Safe :
    (goes_out : Stream → Bool) (fuel : ℕ) (b : List ℕ) (s : Stream)
    → length b ≡ 4
    → length s + 1 < fuel
    → Safe (Code s) (answer_callbacks goes_out fuel b s)
unfolding answer_callbacks
answer_callbacks-Safe goes_out zero b s h lt = absurd (omega arith)
answer_callbacks-Safe goes_out (suc fuel) b [] h lt =
    let (z, e) = word_of b h in
    rw (e, Safe)
      (if_cases {A = Result (List ℕ × Stream)} (Safe (Code [])) (is_arg z 97)
        (λ _.
          if_either {A = Result (List ℕ × Stream)} (Safe (Code [])) (goes_out [])
            (callbacks_end goes_out fuel (omega arith)) tt)
        (λ _. (h, omega arith)))
answer_callbacks-Safe goes_out (suc fuel) b (c ∷ s) h lt =
    let (z, e) = word_of b h in
    let dropped = recv_ignoring 12 (c ∷ s) in
    let next = recv_ignoring 4 dropped.1 in
    let (twelve, less) = recv_ignoring-length 12 (c ∷ s) in
    let (four, left) = recv_ignoring-length 4 dropped.1 in
    rw (e, Safe)
      (if_cases {A = Result (List ℕ × Stream)} (Safe (Code (c ∷ s))) (is_arg z 97)
        (λ _.
          if_either {A = Result (List ℕ × Stream)} (Safe (Code (c ∷ s))) (goes_out (c ∷ s))
            (weaken (answer_callbacks goes_out fuel next.0 next.1)
              (λ d rest p. (p.0, omega (arith, p.1, left, less)))
              (answer_callbacks-Safe goes_out fuel next.0 next.1 four
                (omega (arith, left, less, lt))))
            tt)
        (λ _. (h, omega arith)))

response_buffer-Safe :
    (n : ℕ) (s : Stream) → Safe (λ b rest. length rest + length b ≤ length s) (response_buffer n s)
unfolding response_buffer
response_buffer-Safe n s =
    if_cases {A = Recv (List ℕ)} (λ m. Safe (λ b rest. length rest + length b ≤ length s) (m s))
      (ltb 0 n)
      (λ _.
        weaken (recv_alignment n s) (λ b rest p. omega (arith, p.0, p.1)) (recv_alignment-Safe n s))
      (λ _. omega arith)

module _ (errmsgs : ℤ → List ℕ) (gds_to_sql_state : ℤ → List ℕ) (gds_to_sql_code : ℤ → ℤ) where
  parse_op_response-Safe :
      (s : Stream)
      → Safe
          (λ r rest. length rest + length r.buf ≤ length s)
          (parse_op_response errmsgs gds_to_sql_state gds_to_sql_code s)
  unfolding parse_op_response
  parse_op_response-Safe s = bind-Safe _ (recv_packets 16) _ s (recv_packets-Safe 16 s) λ b s1 p.
      let (h, eh) = word_of (take 4 b) (omega (arith, length-take 4 b, p.0)) in
      let (ln, el) = word_of (drop 12 b) (omega (arith, length-drop 12 b, p.0)) in
      rw (eh, el, Safe)
        (bind-Safe _ (checked_length ln) _ s1 (checked_length-Safe ln s1) λ n s2 q.
          bind-Safe _ (response_buffer n) _ s2 (response_buffer-Safe n s2) λ buf s3 t.
            bind-Safe _ (parse_status_vector errmsgs) _ s3 (parse_status_vector-Safe errmsgs s3)
              λ sv s4 u. omega (arith, p.1, ap length q.1, t, u.1))

  -- A response that is read has taken its code, and all of its buffer was sent.
  pub op_response-Safe :
      (goes_out : Stream → Bool) (s : Stream)
      → Safe
          (λ r rest. length rest + length r.buf < length s)
          (op_response errmsgs gds_to_sql_state gds_to_sql_code goes_out s)
  unfolding op_response
  op_response-Safe goes_out s = bind-Safe _ (recv_packets 4) _ s (recv_packets-Safe 4 s) λ b s1 p.
      bind-Safe _ (λ r. skip_dummies (length r + 2) b r) _ s1
        (skip_dummies-Safe (length s1 + 2) b s1 p.0 (omega arith))
        λ b1 s2 q.
          bind-Safe _ (λ r. answer_callbacks goes_out (length r + 2) b1 r) _ s2
            (answer_callbacks-Safe goes_out (length s2 + 2) b1 s2 q.0 (omega arith))
            λ b2 s3 t.
              let (c, e) = word_of b2 t.0 in
              rw (e, Safe)
                (if_either {A = Recv Response}
                  (λ m. Safe (λ r rest. length rest + length r.buf < length s) (m s3)) (is_arg c 9)
                  (weaken (parse_op_response errmsgs gds_to_sql_state gds_to_sql_code s3)
                    (λ r rest u. omega (arith, p.1, q.1, t.1, u)) (parse_op_response-Safe s3))
                  tt)
