-- ===== src/Packets/Sending.antt =====
-- `sendPackets` against a connection that takes what it is offered in pieces, or fails.
use firebirdsql_go.Base.{
  ℕ, ◌≡◌, ◌⊎◌, inl, inr, refl, sym, ap, ◌∙◌, none, some, List, [], ◌∷◌, ◌++◌, All, append-nil,
  append_assoc, take, length, drop, take-append-drop,
}
use firebirdsql_go.Packets.{
  WireChannel, WireProtocol, Write, Flush, flushed, flush_fails, flush, accepts, fails, bad_conn,
  write_loop, after_write, Written, send_packets, send,
}

-- No `Write` of the connection fails.
abbrev pub Accepts : Write → Type 0
Accepts (accepts n) = Unit
Accepts (fails n) = ⊥

abbrev pub IsReliable : WireProtocol → Type 0
IsReliable p = All Accepts p.conn.writes

-- What the connection took, and what it did not.
abbrev Split : List ℕ → Written → Type 0
Split bs w =
    (rest : List ℕ) × (w.taken ++ rest ≡ bs)
    × (w.failure ≡ none → rest ≡ [])
    × ((w.failure ≡ none) ⊎ (w.failure ≡ some bad_conn))

Split-after :
    (n k : ℕ) (bs : List ℕ) (w : Written)
    → Split (drop n bs) w
    → Split bs (after_write (take n bs) k w)
Split-after n k bs w (rest, e, all, cases) =
    (rest, append_assoc (take n bs) w.taken rest ∙ rw (e) (take-append-drop n bs), all, cases)

write_loop-Split : (ws : List Write) (bs : List ℕ) → Split bs (write_loop ws bs)
unfolding write_loop
write_loop-Split ws [] = ([], refl, λ h. refl, inl refl)
write_loop-Split [] (b ∷ bs) = ([], append-nil (b ∷ bs), λ h. refl, inl refl)
write_loop-Split (accepts n ∷ ws) (b ∷ bs) =
    Split-after n (length (take n (b ∷ bs))) (b ∷ bs) (write_loop ws (drop n (b ∷ bs)))
      (write_loop-Split ws (drop n (b ∷ bs)))
write_loop-Split (fails n ∷ ws) (b ∷ bs) =
    (drop n (b ∷ bs), take-append-drop n (b ∷ bs), λ h. cc h, inr refl)

write_loop_reliable :
    (ws : List Write) (bs : List ℕ) → All Accepts ws → (write_loop ws bs).failure ≡ none
unfolding write_loop
write_loop_reliable ws [] h = refl
write_loop_reliable [] (b ∷ bs) h = refl
write_loop_reliable (accepts n ∷ ws) (b ∷ bs) h = write_loop_reliable ws (drop n (b ∷ bs)) h.1
write_loop_reliable (fails n ∷ ws) (b ∷ bs) h = elim h.0 [ ]

-- All of the buffer, whatever the pieces.
pub send_reliable :
    (p : WireProtocol)
    → IsReliable p
    → ((send p).1 ≡ none) × ((send p).0.sent ≡ p.sent ++ p.buf) × ((send p).0.buf ≡ [])
unfolding send send_packets
send_reliable p h =
    let none_failed = write_loop_reliable p.conn.writes p.buf h in
    let (rest, e, all, cases) = write_loop-Split p.conn.writes p.buf in
    let taken : (write_loop p.conn.writes p.buf).taken ≡ p.buf =
      sym (append-nil _)
      ∙ ap (λ r. (write_loop p.conn.writes p.buf).taken ++ r) (sym (all none_failed))
      ∙ e in
    (none_failed, ap (λ t. p.sent ++ t) taken, refl)

-- The flush works, and what has gone out when it does not.
abbrev pub Works : List Flush → Type 0
Works [] = Unit
Works (flushed ∷ fs) = Unit
Works (flush_fails n ∷ fs) = ⊥

-- What goes out of all that the connection took: everything if the flush works, and otherwise only
-- as much more as the flush lets through.
abbrev pub Delivers : WireChannel → List ℕ → List ℕ → Type 0
Delivers c all out =
    (Works c.flushes → out ≡ all)
    × ((n : ℕ) (fs : List Flush)
        → c.flushes ≡ flush_fails n ∷ fs
        → out ≡ c.delivered ++ take n (drop (length c.delivered) all))

flush-Delivers :
    (ws : List Write) (fs : List Flush) (d all : List ℕ)
    → Delivers (record { writes = ws; flushes = fs; delivered = d }) all (flush fs d all).1.0
unfolding flush
flush-Delivers ws [] d all = (λ h. refl, λ n gs e. cc e)
flush-Delivers ws (flushed ∷ fs) d all = (λ h. refl, λ n gs e. cc e)
flush-Delivers ws (flush_fails k ∷ fs) d all =
    (λ h. elim h [ ], λ n gs e. ap (λ m. d ++ take m (drop (length d) all)) (same e))
  where
    same : {k n : ℕ} {fs gs : List Flush} → flush_fails k ∷ fs ≡ flush_fails n ∷ gs → k ≡ n
    same e = cc e

-- Whatever the connection does, it took the front of the buffer, the buffer is empty, and the only
-- error is a bad connection, of a write.
pub send_any :
    (p : WireProtocol)
    → (taken : List ℕ) × (rest : List ℕ) × (taken ++ rest ≡ p.buf)
      × ((send p).0.sent ≡ p.sent ++ taken)
      × ((send p).0.buf ≡ [])
      × ((send p).1 ≡ none → rest ≡ [])
      × (((send p).1 ≡ none) ⊎ ((send p).1 ≡ some bad_conn))
      × Delivers p.conn (p.sent ++ taken) (send p).0.conn.delivered
unfolding send send_packets
send_any p =
    let (rest, e, all, cases) = write_loop-Split p.conn.writes p.buf in
    (
      _,
      rest,
      e,
      refl,
      refl,
      all,
      cases,
      flush-Delivers p.conn.writes p.conn.flushes p.conn.delivered _,
    )

write_loop_left :
    (ws : List Write) (bs : List ℕ) → All Accepts ws → All Accepts (write_loop ws bs).left
unfolding write_loop
write_loop_left ws [] h = h
write_loop_left [] (b ∷ bs) h = tt
write_loop_left (accepts n ∷ ws) (b ∷ bs) h = write_loop_left ws (drop n (b ∷ bs)) h.1
write_loop_left (fails n ∷ ws) (b ∷ bs) h = elim h.0 [ ]

-- A connection whose writes do not fail stays one.
pub send-Reliable : (p : WireProtocol) → IsReliable p → IsReliable (send p).0
unfolding send send_packets
send-Reliable p h = write_loop_left p.conn.writes p.buf h
