-- ===== src/Describe.antt =====
-- Statement descriptions: `_parse_select_items` and `parse_xsqlda` of wireprotocol.go, and the column
-- `xSQLVAR` of xsqlvar.go. A buffer from an index on is a stream of its own, so that a slice that is
-- longer than what is left would be a panic.
pub mod Safety
pub mod Columns
pub mod Statement
pub mod Prepared
mod Tests
use firebirdsql_go.Base.{
  ℕ, zero, suc, ◌+◌, ◌-◌, ◌%◌, ◌≡◌, ℤ, pos, negsuc, Bool, true, false, not, ◌&&◌, Option, none,
  some, List, [], ◌∷◌, ◌++◌, length, take, drop, get_or, leb, ltb, ◌==◌, if◌then◌else◌, replicate,
}
use firebirdsql_go.Bytes.{bytes_to_int32, bytes_to_int16, bytes_to_uint16}
use firebirdsql_go.Wire.{
  Result, ok, err, Recv, Stream, ◌>>=◌, return, fault, or_panic, malformed, stuck, panic,
}

-- The fields that a description fills.
pub record XsqlVar : Type 0 where
  pub sqltype : ℤ
  pub sqlsubtype : ℤ
  pub sqlscale : ℤ
  pub sqllen : ℤ
  pub null_ok : Bool
  pub fieldname : List ℕ
  pub relname : List ℕ
  pub ownname : List ℕ
  pub aliasname : List ℕ

abbrev pub blank : XsqlVar
blank = record {
  sqltype = pos 0;
  sqlsubtype = pos 0;
  sqlscale = pos 0;
  sqllen = pos 0;
  null_ok = false;
  fieldname = [];
  relname = [];
  ownname = [];
  aliasname = [];
}

-- `buf[i : i+n]`: past the end it is a panic.
unfoldable pub slice_bytes : ℕ → Recv (List ℕ)
slice_bytes n s = if leb n (length s) then ok (take n s, drop n s) else err panic

-- The next `n` bytes of the buffer, whose length is checked first.
unfoldable pub checked_bytes : ℕ → Recv (List ℕ)
checked_bytes n s = if leb n (length s) then slice_bytes n s else err malformed

-- The four bytes of a number, whose length is checked first.
unfoldable pub int_payload : List ℕ → Recv ℤ
int_payload payload =
    if ltb (length payload) 4 then fault malformed else or_panic (bytes_to_int32 payload)

-- A write to an element; out of range it would be a panic.
unfoldable pub update_at : List XsqlVar → ℕ → (XsqlVar → XsqlVar) → Option (List XsqlVar)
update_at [] i f = none
update_at (x ∷ xs) zero f = some (f x ∷ xs)
update_at (x ∷ xs) (suc i) f = elim (update_at xs i f) [ none ↦ none | some ys ↦ some (x ∷ ys) ]

-- What the loop keeps: the current index, from 1, and the columns.
pub record Items : Type 0 where
  pub index : ℕ
  pub columns : List XsqlVar

-- `requireIndex`, and a write to the current column.
unfoldable pub write : Items → (XsqlVar → XsqlVar) → Recv Items
write st f =
    if ltb st.index 1
    then fault malformed
    else if ltb (length st.columns) st.index
    then fault malformed
    else (or_panic (update_at st.columns (st.index - 1) f) >>= λ xs.
        return (record st { columns = xs }))

-- `requireIndex` stands before the length check.
unfoldable pub write_int : Items → List ℕ → (ℤ → XsqlVar → XsqlVar) → Recv Items
write_int st payload f = write st (λ x. x) >>= λ _. int_payload payload >>= λ z. write st (f z)

-- `sqltype % 2 != 0` takes the nullable flag off, also below 0.
unfoldable pub even_type : ℤ → ℤ
even_type (pos n) = pos (if n % 2 == 0 then n else n - 1)
even_type (negsuc n) = negsuc (if n % 2 == 0 then n + 1 else n)

abbrev pub is_nonzero : ℤ → Bool
is_nonzero (pos n) = not (n == 0)
is_nonzero (negsuc n) = true

-- The new index must be one of a column.
unfoldable pub set_index : Items → ℤ → Recv Items
set_index st (negsuc n) = fault malformed
set_index st (pos n) =
    if ltb n 1
    then fault malformed
    else if ltb (length st.columns) n
    then fault malformed
    else return (record st { index = n })

-- One item with its payload. The items are named by their numbers: 9 isc_info_sql_sqlda_seq, 11 type,
-- 12 sub_type, 13 scale, 14 length, 15 null_ind, 16 field, 17 relation, 18 owner, 19 alias.
unfoldable pub apply_item : ℕ → List ℕ → Items → Recv Items
apply_item item payload st =
    if item == 9
    then (int_payload payload >>= λ z. set_index st z)
    else if item == 11
    then write_int st payload (λ z x. record x { sqltype = even_type z })
    else if item == 12
    then write_int st payload (λ z x. record x { sqlsubtype = z })
    else if item == 13
    then write_int st payload (λ z x. record x { sqlscale = z })
    else if item == 14
    then write_int st payload (λ z x. record x { sqllen = z })
    else if item == 15
    then write_int st payload (λ z x. record x { null_ok = is_nonzero z })
    else if item == 16
    then write st (λ x. record x { fieldname = payload })
    else if item == 17
    then write st (λ x. record x { relname = payload })
    else if item == 18
    then write st (λ x. record x { ownname = payload })
    else if item == 19
    then write st (λ x. record x { aliasname = payload })
    else return st

-- The length and the payload of an item.
unfoldable pub item_payload : Recv (List ℕ)
item_payload = checked_bytes 2 >>= λ b. or_panic (bytes_to_uint16 b) >>= λ ln. checked_bytes ln

-- What the parser returns: the index to go on from, `none` for -1, and the columns.
abbrev pub Described : Type 0
Described = Option ℕ × List XsqlVar

unfoldable pub select_items : ℕ → Items → Recv Described
select_items zero st buf = err stuck
select_items (suc fuel) st [] = ok ((none, st.columns), [])
select_items (suc fuel) st (item ∷ rest) =
    let skipped = select_items fuel st rest in
    if item == 1
    then ok ((none, st.columns), rest)
    else if item == 2
    then ok ((some st.index, st.columns), rest)
    else if item == 8
    then skipped
    else ((item_payload >>= λ payload. apply_item item payload st >>= λ st'. select_items fuel st')
        rest)

-- Each round takes a byte at least, so that the buffer's length bounds the rounds.
unfoldable pub parse_select_items : List ℕ → List XsqlVar → Result Described
parse_select_items buf xsqlda =
    elim (select_items (length buf + 1) (record { index = 0; columns = xsqlda }) buf) [
      | ok (d, rest) ↦ ok d
      | err e ↦ err e
    ]
