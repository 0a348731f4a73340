-- ===== src/Describe/Statement.antt =====
-- `parse_xsqlda` of wireprotocol.go. `more` is what `opInfoSql` and `opResponse` give when the
-- description is continued from an index, the buffer of the next response: `describe_more`.
pub mod Safety
use firebirdsql_go.Base.{
  ℕ, zero, suc, ◌+◌, ◌-◌, ℤ, pos, negsuc, Bool, true, false, ◌&&◌, ◌||◌, Option, none, some, List,
  [], ◌∷◌, length, take, drop, leb, ltb, ◌==◌, if◌then◌else◌, replicate,
}
use firebirdsql_go.Bytes.{bytes_to_int32, bytes_to_int16, bytes_to_uint16}
use firebirdsql_go.Wire.{
  Result, ok, err, Recv, Stream, ◌>>=◌, return, fault, or_panic, closed, malformed, refused, stuck,
}
use firebirdsql_go.Wire.Response.{FbError}
use firebirdsql_go.Wire.Response.Answer.{op_response}
use firebirdsql_go.Describe.{XsqlVar, blank, Described, parse_select_items}

-- The bytes from an index on begin like this, and there are as many.
abbrev pub starts : List ℕ → List ℕ → Bool
starts [] buf = true
starts (p ∷ ps) [] = false
starts (p ∷ ps) (b ∷ buf) = b == p && starts ps buf

abbrev pub lift : {A : Type 0} → Result A → Recv A
lift (ok a) s = ok (a, s)
lift (err e) s = err e

-- Where the columns start in a continuation: behind its first four bytes and a payload.
unfoldable pub continuation_start : List ℕ → ℤ → Recv ℕ
continuation_start buf (negsuc n) = fault malformed
continuation_start buf (pos n) =
    if leb (length buf) (4 + n) then fault malformed else return (4 + n)

unfoldable pub column_count : ℤ → Recv ℕ
column_count (negsuc n) = fault malformed
column_count (pos n) = if ltb 65535 n then fault malformed else return n

-- The payload of `isc_info_sql_stmt_type`: the type, and the index behind it.
unfoldable pub statement_type : List ℕ → ℕ → Recv (ℤ × ℕ)
statement_type buf i = or_panic (bytes_to_uint16 (drop (i + 1) buf)) >>= λ ln.
    if ltb ln 4 || ltb (length buf) (i + 3 + ln)
    then fault malformed
    else (or_panic (bytes_to_int32 (take ln (drop (i + 3) buf))) >>= λ t. return (t, i + 3 + ln))

-- The number of columns, and the index of the first one.
unfoldable pub select_header : List ℕ → ℕ → Recv (ℕ × ℕ)
select_header buf i =
    if ltb (length buf) (i + 2 + 2)
    then fault malformed
    else (or_panic (bytes_to_uint16 (drop (i + 2) buf)) >>= λ ln.
        if ltb ln 4 || ltb (length buf) (i + 4 + ln)
        then fault malformed
        else (or_panic (bytes_to_int32 (take ln (drop (i + 4) buf))) >>= λ z.
            column_count z >>= λ n. return (n, i + 4 + ln)))

abbrev pub buffer_unless : Option FbError → List ℕ → Recv (List ℕ)
buffer_unless none buf = return buf
buffer_unless (some e) buf = fault refused

-- `opInfoSql` from an index on, and the buffer of the answer. Whether a request goes out is the
-- connection's; which index it asks for is the server's affair.
unfoldable pub describe_more :
    (ℤ → List ℕ) → (ℤ → List ℕ) → (ℤ → ℤ) → (Stream → Bool) → ℕ → Recv (List ℕ)
describe_more errmsgs gds_to_sql_state gds_to_sql_code goes_out i s =
    let answer = op_response errmsgs gds_to_sql_state gds_to_sql_code goes_out in
    if goes_out s then (answer >>= λ r. buffer_unless r.error r.buf) s else err closed

module _ (more : ℕ → Recv (List ℕ)) where
  -- "more describe vars": the columns, and the buffer that was parsed last.
  unfoldable pub continue_select : ℕ → List ℕ → Described → Recv (List XsqlVar × List ℕ)
  continue_select zero buf d = fault stuck
  continue_select (suc fuel) buf (none, xs) = return (xs, buf)
  continue_select (suc fuel) buf (some zero, xs) = return (xs, buf)
  continue_select (suc fuel) buf (some (suc i), xs) = more (suc i) >>= λ next.
      (if ltb (length next) 4 then fault malformed else or_panic (bytes_to_int16 (drop 2 next)))
      >>= λ ln. continuation_start next ln >>= λ start.
          lift (parse_select_items (drop start next) xs) >>= λ d. continue_select fuel next d

  -- The columns of a SELECT. The loop then goes on at the count, which is not skipped.
  unfoldable pub select_columns : List ℕ → ℕ → Recv (List XsqlVar × List ℕ)
  select_columns buf i = select_header buf i >>= λ (n, start).
      lift (parse_select_items (drop start buf) (replicate n blank)) >>= λ d s.
      continue_select (length s + 1) buf d s

  -- 21 is isc_info_sql_stmt_type; 4 and 7 are isc_info_sql_select and isc_info_sql_describe_vars.
  unfoldable pub xsqlda_loop : ℕ → List ℕ → ℕ → ℤ → List XsqlVar → Recv (ℤ × List XsqlVar)
  xsqlda_loop zero buf i t xs = fault stuck
  xsqlda_loop (suc fuel) buf i t xs =
      if ltb i (length buf)
      then if starts (21 ∷ 4 ∷ 0 ∷ []) (drop i buf)
        then (statement_type buf i >>= λ (t', j). xsqlda_loop fuel buf j t' xs)
        else if starts (4 ∷ 7 ∷ []) (drop i buf)
        then (select_columns buf i >>= λ (xs', buf'). xsqlda_loop fuel buf' (i + 4) t xs')
        else return (t, xs)
      else return (t, xs)

  -- A round moves on in the buffer, or takes a response from the stream.
  unfoldable pub parse_xsqlda : List ℕ → Recv (ℤ × List XsqlVar)
  parse_xsqlda buf s = xsqlda_loop (length buf + length s + 1) buf 0 (pos 0) [] s
