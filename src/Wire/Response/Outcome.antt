-- ===== src/Wire/Response/Outcome.antt =====
-- What `_parse_op_response` makes of a response as a server writes it, and of any other.
use firebirdsql_go.Base.{
  ℕ, suc, ◌^◌, ◌≤◌, ◌≡◌, refl, sym, subst, ap, ◌∙◌, ◌↔◌, arith, ℤ, pos, Bool, true, false, not,
  ◌||◌, none, some, List, [], ◌∷◌, ◌++◌, length, length-append, append_assoc, All, IsI32, take,
  drop, take-append, drop-append, replicate, ltb, if_cases,
}
use firebirdsql_go.Bytes.{bint32_to_bytes, xdr_bytes, xdr_padding, bytes_to_bint32}
use firebirdsql_go.Bytes.RoundTrip.{bint32_round_trip}
use firebirdsql_go.Wire.{ok, Recv, Stream, ◌>>=◌, or_panic}
use firebirdsql_go.Wire.Receive.{
  recv_packets_exact, recv_alignment_padded, xdr_bytes-word, checked_length_within,
}
use firebirdsql_go.Wire.Status.{StatusVector, Arg, is_zero}
use firebirdsql_go.Wire.Status.RoundTrip.{encode_args, Fits, parse_status_vector-encode_args}
use firebirdsql_go.Wire.Status.Collected.{codes_sent, collects}
use firebirdsql_go.Wire.Response.{Response, response_error, response_buffer, parse_op_response}

-- A response's handle, object id, buffer and status vector, in front of what follows.
abbrev pub encode_response : ℤ → List ℕ → List ℕ → List Arg → Stream → Stream
encode_response h oid buf args rest =
    bint32_to_bytes h ++ (oid ++ (xdr_bytes buf ++ encode_args args rest))

abbrev pub padded : List ℕ → List ℕ
padded buf = buf ++ replicate (xdr_padding (length buf)) 0

pub response_buffer-padded :
    (buf : List ℕ) (rest : Stream)
    → response_buffer (length buf) (padded buf ++ rest) ≡ ok (buf, rest)
unfolding response_buffer
response_buffer-padded [] rest = refl
response_buffer-padded (x ∷ buf) rest =
    if_cases {A = Recv (List ℕ)} (λ m. m (padded (x ∷ buf) ++ rest) ≡ ok (x ∷ buf, rest))
      (ltb 0 (suc (length buf))) (λ _. recv_alignment_padded (x ∷ buf) rest)
      (λ n. absurd (ground arith))

-- The first sixteen bytes.
abbrev header : ℤ → List ℕ → List ℕ → List ℕ
header h oid buf = bint32_to_bytes h ++ (oid ++ bint32_to_bytes (pos (length buf)))

header-response :
    (h : ℤ) (oid buf : List ℕ) (s : Stream)
    → length buf ≤ 2 ^ 24
    → bint32_to_bytes h ++ (oid ++ (xdr_bytes buf ++ s)) ≡ header h oid buf ++ (padded buf ++ s)
header-response h oid buf s le = rw (xdr_bytes-word buf (omega arith)) (simp append_assoc)

length-header : (h : ℤ) (oid buf : List ℕ) → length oid ≡ 8 → length (header h oid buf) ≡ 16
unfolding bint32_to_bytes
length-header h oid buf e = omega (arith, e, length-append oid (bint32_to_bytes (pos (length buf))))

header-handle :
    (h : ℤ) (oid buf : List ℕ) → IsI32 h → bytes_to_bint32 (take 4 (header h oid buf)) ≡ some h
unfolding bint32_to_bytes
header-handle h oid buf i = bint32_round_trip h [] i

after_oid : (oid w : List ℕ) → length oid ≡ 8 → (take 8 (oid ++ w) ≡ oid) × (drop 8 (oid ++ w) ≡ w)
after_oid oid w e = (
  subst (λ n. take n (oid ++ w) ≡ oid) e (take-append oid w),
  subst (λ n. drop n (oid ++ w) ≡ w) e (drop-append oid w),
)

header-length :
    (h : ℤ) (oid buf : List ℕ)
    → length oid ≡ 8
    → length buf ≤ 2 ^ 24
    → bytes_to_bint32 (drop 12 (header h oid buf)) ≡ some (pos (length buf))
unfolding bint32_to_bytes
header-length h oid buf e le =
    ap bytes_to_bint32 (after_oid oid (bint32_to_bytes (pos (length buf))) e).1
    ∙ bint32_round_trip (pos (length buf)) [] (omega arith)

not_zero : (x : Bool) → not x ≡ true → x ≡ true → ⊥
not_zero true h k = cc
not_zero false h k = cc

loud : (cs : List ℤ) (z : ℤ) → ltb 0 (length cs) || not (is_zero z) ≡ true → cs ≡ [] → z ≡ pos 0 → ⊥
loud [] z b n e = not_zero (is_zero z) b (ap is_zero e)
loud (c ∷ cs) z b n e = cc

quiet_codes : (cs : List ℤ) (z : ℤ) → ltb 0 (length cs) || not (is_zero z) ≡ false → cs ≡ []
quiet_codes [] z b = refl
quiet_codes (c ∷ cs) z b = absurd (ground arith)

module _ (errmsgs : ℤ → List ℕ) (gds_to_sql_state : ℤ → List ℕ) (gds_to_sql_code : ℤ → ℤ) where
  response_error-none :
      (sv : StatusVector)
      → (sv.gds_codes ≡ [] → sv.sql_code ≡ pos 0)
      → (response_error errmsgs gds_to_sql_state gds_to_sql_code sv ≡ none) ↔ (sv.gds_codes ≡ [])
  unfolding response_error
  response_error-none sv h =
      if_cases (λ o. (o ≡ none) ↔ (sv.gds_codes ≡ []))
        (ltb 0 (length sv.gds_codes) || not (is_zero sv.sql_code))
        (λ b. (λ e. cc, λ n. absurd (loud sv.gds_codes sv.sql_code b n (h n))))
        (λ b. (λ e. quiet_codes sv.gds_codes sv.sql_code b, λ n. refl))

  -- Of a response as a server writes it, whose object id has 8 bytes, whose buffer is within the
  -- cap, and whose arguments fit, the handle, the object id and the buffer come through, and
  -- nothing behind it is read. An error is reported exactly if the server sent a nonzero GDS code,
  -- so that warnings alone are no error.
  pub parse_op_response_outcome :
      (h : ℤ) (oid buf : List ℕ) (args : List Arg) (rest : Stream)
      → IsI32 h
      → length oid ≡ 8
      → length buf ≤ 2 ^ 24
      → All Fits args
      → (r : Response) × (parse_op_response errmsgs gds_to_sql_state gds_to_sql_code
            (encode_response h oid buf args rest)
          ≡ ok (r, rest))
        × (r.handle ≡ h)
        × (r.oid ≡ oid)
        × (r.buf ≡ buf)
        × ((r.error ≡ none) ↔ (codes_sent args ≡ []))
  unfolding parse_op_response bint32_to_bytes
  parse_op_response_outcome h oid buf args rest i e le fits =
      let (q, run, parsed) = parse_status_vector-encode_args errmsgs args rest fits in
      let (codes, warns, quiet) = collects errmsgs args q run in
      let (none_if, if_none) = response_error-none q.sv quiet in
      (
        _,
        rw (header-response h oid buf (encode_args args rest) le) (
            rw
              (
                recv_packets_exact (header h oid buf) (padded buf ++ encode_args args rest)
                    (length-header h oid buf e),
                ◌>>=◌,
              )
              (rw (header-handle h oid buf i, header-length h oid buf e le, or_panic)
                (rw
                  (
                    checked_length_within (length buf) (padded buf ++ encode_args args rest) le,
                    ◌>>=◌,
                  )
                  (rw (response_buffer-padded buf (encode_args args rest), ◌>>=◌)
                    (rw (parsed, ◌>>=◌) refl))))),
        refl,
        (after_oid oid (bint32_to_bytes (pos (length buf))) e).0,
        refl,
        (λ n. sym codes ∙ none_if n, λ n. if_none (codes ∙ n)),
      )
