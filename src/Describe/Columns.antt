-- ===== src/Describe/Columns.antt =====
-- A description as a server writes it, item by item and column by column.
use firebirdsql_go.Base.{
  ℕ, zero, suc, ◌+◌, ◌*◌, ◌-◌, map, ◌^◌, ◌≤◌, ◌<◌, ◌≡◌, refl, sym, ap, ◌∙◌, arith, ℤ, pos, Bool,
  true, false, none, some, subst, List, [], ◌∷◌, ◌++◌, take, drop, take-append, drop-append, length,
  length-append, append_assoc, leb, ltb, ◌==◌, if_cases, IsI32, All, replicate,
}
use firebirdsql_go.Bytes.{byte_at, int32_to_bytes, bytes_to_uint16}
use firebirdsql_go.Bytes.RoundTrip.{int32_round_trip, le16_bytes}
use firebirdsql_go.Wire.{Result, ok, err, Recv, Stream, ◌>>=◌, or_panic}
use firebirdsql_go.Describe.{
  XsqlVar, blank, Items, slice_bytes, checked_bytes, int_payload, update_at, write, write_int,
  even_type, is_nonzero, set_index, apply_item, item_payload, Described, select_items,
  parse_select_items,
}

-- An item with its length and its payload, in front of what follows.
abbrev item_bytes : ℕ → List ℕ → Stream → Stream
item_bytes k payload rest =
    k ∷ byte_at (length payload) 0 ∷ byte_at (length payload) 8 ∷ (payload ++ rest)

checked_bytes_exact : (c s : List ℕ) {n : ℕ} → length c ≡ n → checked_bytes n (c ++ s) ≡ ok (c, s)
unfolding checked_bytes slice_bytes
checked_bytes_exact c s {n = n} e =
    if_cases (λ r. r ≡ ok (c, s)) (leb n (length (c ++ s))) (λ fits. rw (fits, takes, drops) refl)
      (λ short. absurd (ground (arith, length-append c s)))
  where
    takes : take n (c ++ s) ≡ c
    takes = subst (λ k. take k (c ++ s) ≡ c) e (take-append c s)

    drops : drop n (c ++ s) ≡ s
    drops = subst (λ k. drop k (c ++ s) ≡ s) e (drop-append c s)

item_payload_exact :
    (payload : List ℕ) (rest : Stream)
    → length payload < 2 ^ 16
    → item_payload (byte_at (length payload) 0 ∷ byte_at (length payload) 8 ∷ (payload ++ rest))
      ≡ ok (payload, rest)
unfolding item_payload bytes_to_uint16
item_payload_exact payload rest h =
    rw
      (
        checked_bytes_exact (byte_at (length payload) 0 ∷ byte_at (length payload) 8 ∷ [])
            (payload ++ rest) {n = 2} refl,
        ◌>>=◌,
      )
      (checked_bytes_exact payload rest (sym (le16_bytes (length payload) h)))

-- One round on an item that is not one of the three without a payload.
item_step :
    (fuel k : ℕ) (payload : List ℕ) (st st' : Items) (rest : Stream)
    → (k == 1) ≡ false
    → (k == 2) ≡ false
    → (k == 8) ≡ false
    → length payload < 2 ^ 16
    → apply_item k payload st rest ≡ ok (st', rest)
    → select_items (suc fuel) st (item_bytes k payload rest) ≡ select_items fuel st' rest
unfolding select_items
item_step fuel k payload st st' rest e1 e2 e8 h e =
    rw (e1, e2, e8) (rw (item_payload_exact payload rest h, ◌>>=◌) (rw (e, ◌>>=◌) refl))

-- The state at a column between those before it and those behind it.
abbrev st_at : List XsqlVar → XsqlVar → List XsqlVar → Items
st_at front x back = record { index = length front + 1; columns = front ++ x ∷ back }

update_at-append :
    (front back : List XsqlVar) (x : XsqlVar) (f : XsqlVar → XsqlVar)
    → update_at (front ++ x ∷ back) (length front) f ≡ some (front ++ f x ∷ back)
unfolding update_at
update_at-append [] back x f = refl
update_at-append (y ∷ front) back x f = rw (update_at-append front back x f) refl

write_at :
    (front back : List XsqlVar) (x : XsqlVar) (f : XsqlVar → XsqlVar) (s : Stream)
    → write (st_at front x back) f s ≡ ok (st_at front (f x) back, s)
unfolding write
write_at front back x f s =
    let P : Recv Items → Type 0 = λ m. m s ≡ ok (st_at front (f x) back, s) in
    if_cases P (ltb (length front + 1) 1) (λ low. absurd (ground arith))
      λ _.
        if_cases P (ltb (length (front ++ x ∷ back)) (length front + 1))
          (λ high. absurd (ground (arith, length-append front (x ∷ back))))
          λ _.
            rw
              (
                (let e : length front + 1 - 1 ≡ length front = omega arith in e),
                update_at-append front back x f,
                ◌>>=◌,
              )
              refl

int_payload_exact : (z : ℤ) (s : Stream) → IsI32 z → int_payload (int32_to_bytes z) s ≡ ok (z, s)
unfolding int_payload int32_to_bytes
int_payload_exact z s h = ap (λ o. or_panic o s) (int32_round_trip z [] h)

write_int_at :
    (front back : List XsqlVar) (x : XsqlVar) (f : ℤ → XsqlVar → XsqlVar) (z : ℤ) (s : Stream)
    → IsI32 z
    → write_int (st_at front x back) (int32_to_bytes z) f s ≡ ok (st_at front (f z x) back, s)
unfolding write_int
write_int_at front back x f z s h =
    rw (write_at front back x (λ y. y) s, ◌>>=◌)
      (rw (int_payload_exact z s h, ◌>>=◌) (write_at front back x (f z) s))

abbrev pub flag : Bool → ℤ
flag true = pos 1
flag false = pos 0

-- The ten items of a column and their end, for the column of that number.
abbrev pub encode_column : ℕ → XsqlVar → Stream → Stream
encode_column k c rest = item_bytes 9 (int32_to_bytes (pos k)) (
    item_bytes 11 (int32_to_bytes c.sqltype) (
      item_bytes 12 (int32_to_bytes c.sqlsubtype) (
        item_bytes 13 (int32_to_bytes c.sqlscale) (
          item_bytes 14 (int32_to_bytes c.sqllen) (
            item_bytes 15 (int32_to_bytes (flag c.null_ok)) (
              item_bytes 16 c.fieldname (
                item_bytes 17 c.relname
                  (item_bytes 18 c.ownname (item_bytes 19 c.aliasname (8 ∷ rest))))))))))

-- Numbers of 32 bits, and names that a length word can measure.
pub record Fits (c : XsqlVar) : Type 0 where
  pub type_fits : IsI32 c.sqltype
  pub subtype_fits : IsI32 c.sqlsubtype
  pub scale_fits : IsI32 c.sqlscale
  pub len_fits : IsI32 c.sqllen
  pub field_fits : length c.fieldname < 2 ^ 16
  pub rel_fits : length c.relname < 2 ^ 16
  pub own_fits : length c.ownname < 2 ^ 16
  pub alias_fits : length c.aliasname < 2 ^ 16

-- What the parser keeps of a column: its type without the nullable flag.
abbrev pub kept : XsqlVar → XsqlVar
kept c = record c { sqltype = even_type c.sqltype }

module _ (front back : List XsqlVar) (fuel : ℕ) (rest : Stream) where
  number_item :
      (k : ℕ) (x : XsqlVar) (f : ℤ → XsqlVar → XsqlVar) (z : ℤ)
      → (k == 1) ≡ false
      → (k == 2) ≡ false
      → (k == 8) ≡ false
      → IsI32 z
      → apply_item k (int32_to_bytes z) (st_at front x back)
        ≡ write_int (st_at front x back) (int32_to_bytes z) f
      → select_items (suc fuel) (st_at front x back) (item_bytes k (int32_to_bytes z) rest)
        ≡ select_items fuel (st_at front (f z x) back) rest
  number_item k x f z e1 e2 e8 h e =
      item_step fuel k (int32_to_bytes z) (st_at front x back) (st_at front (f z x) back) rest e1 e2
        e8 (unfold int32_to_bytes in omega arith)
        (ap (λ m. m rest) e ∙ write_int_at front back x f z rest h)

  text_item :
      (k : ℕ) (payload : List ℕ) (x : XsqlVar) (f : XsqlVar → XsqlVar)
      → (k == 1) ≡ false
      → (k == 2) ≡ false
      → (k == 8) ≡ false
      → length payload < 2 ^ 16
      → apply_item k payload (st_at front x back) ≡ write (st_at front x back) f
      → select_items (suc fuel) (st_at front x back) (item_bytes k payload rest)
        ≡ select_items fuel (st_at front (f x) back) rest
  text_item k payload x f e1 e2 e8 h e =
      item_step fuel k payload (st_at front x back) (st_at front (f x) back) rest e1 e2 e8 h
        (ap (λ m. m rest) e ∙ write_at front back x f rest)

  -- Whatever the index was, it is then that of the column.
  seq_item :
      (x : XsqlVar) (i : ℕ)
      → length front < 2 ^ 16
      → select_items
          (suc fuel)
          (record { index = i; columns = front ++ x ∷ back })
          (item_bytes 9 (int32_to_bytes (pos (length front + 1))) rest)
        ≡ select_items fuel (st_at front x back) rest
  unfolding apply_item set_index
  seq_item x i h =
      item_step fuel 9 (int32_to_bytes (pos (length front + 1)))
        (record { index = i; columns = front ++ x ∷ back }) (st_at front x back) rest refl refl refl
        (unfold int32_to_bytes in omega arith)
        (rw (int_payload_exact (pos (length front + 1)) rest (omega arith), ◌>>=◌)
          (if_cases {A = Recv Items} (λ m. m rest ≡ ok (st_at front x back, rest))
            (ltb (length front + 1) 1) (λ low. absurd (ground arith))
            λ _.
              if_cases {A = Recv Items} (λ m. m rest ≡ ok (st_at front x back, rest))
                (ltb (length (front ++ x ∷ back)) (length front + 1))
                (λ high. absurd (ground (arith, length-append front (x ∷ back)))) (λ _. refl)))

nonzero-flag : (b : Bool) → is_nonzero (flag b) ≡ b
nonzero-flag true = refl
nonzero-flag false = refl

flag_fits : (b : Bool) → IsI32 (flag b)
flag_fits true = omega arith
flag_fits false = omega arith

end_item :
    (st : Items) (fuel : ℕ) (rest : Stream)
    → select_items (suc fuel) st (8 ∷ rest) ≡ select_items fuel st rest
unfolding select_items
end_item st fuel rest = refl

-- A whole column, whatever stood in its place and whatever the index was.
column_step :
    (front back : List XsqlVar) (x c : XsqlVar) (i fuel : ℕ) (rest : Stream)
    → Fits c
    → length front < 2 ^ 16
    → select_items
        (suc (suc (suc (suc (suc (suc (suc (suc (suc (suc (suc fuel)))))))))))
        (record { index = i; columns = front ++ x ∷ back })
        (encode_column (length front + 1) c rest)
      ≡ select_items fuel (st_at front (kept c) back) rest
unfolding apply_item
column_step front back x c i fuel rest h l =
    seq_item front back _ _ x i l
    ∙ number_item front back _ _ 11 _ (λ z y. record y { sqltype = even_type z }) c.sqltype refl
        refl refl h.type_fits refl
    ∙ number_item front back _ _ 12 _ (λ z y. record y { sqlsubtype = z }) c.sqlsubtype refl refl
        refl h.subtype_fits refl
    ∙ number_item front back _ _ 13 _ (λ z y. record y { sqlscale = z }) c.sqlscale refl refl refl
        h.scale_fits refl
    ∙ number_item front back _ _ 14 _ (λ z y. record y { sqllen = z }) c.sqllen refl refl refl
        h.len_fits refl
    ∙ number_item front back _ _ 15 _ (λ z y. record y { null_ok = is_nonzero z }) (flag c.null_ok)
        refl refl refl (flag_fits c.null_ok) refl
    ∙ text_item front back _ _ 16 c.fieldname _ (λ y. record y { fieldname = c.fieldname }) refl
        refl refl h.field_fits refl
    ∙ text_item front back _ _ 17 c.relname _ (λ y. record y { relname = c.relname }) refl refl refl
        h.rel_fits refl
    ∙ text_item front back _ _ 18 c.ownname _ (λ y. record y { ownname = c.ownname }) refl refl refl
        h.own_fits refl
    ∙ text_item front back _ _ 19 c.aliasname _ (λ y. record y { aliasname = c.aliasname }) refl
        refl refl h.alias_fits refl
    ∙ end_item
        (st_at front
          (record c { sqltype = even_type c.sqltype; null_ok = is_nonzero (flag c.null_ok) }) back)
        fuel rest
    ∙ ap
        (λ b.
          select_items fuel
            (st_at front (record c { sqltype = even_type c.sqltype; null_ok = b }) back) rest)
        (nonzero-flag c.null_ok)

-- The columns from a number on, and the end of the description.
abbrev pub encode_columns : ℕ → List XsqlVar → Stream → Stream
encode_columns k [] rest = 1 ∷ rest
encode_columns k (c ∷ cs) rest = encode_column (k + 1) c (encode_columns (k + 1) cs rest)

end_columns :
    (st : Items) (fuel : ℕ) (rest : Stream)
    → select_items (suc fuel) st (1 ∷ rest) ≡ ok ((none, st.columns), rest)
unfolding select_items
end_columns st fuel rest = refl

select_items-columns :
    (cs : List XsqlVar) (front : List XsqlVar) (i fuel : ℕ) (rest : Stream)
    → All Fits cs
    → length front + length cs < 2 ^ 16
    → 11 * length cs < fuel
    → select_items fuel
        (record { index = i; columns = front ++ replicate (length cs) blank })
        (encode_columns (length front) cs rest)
      ≡ ok ((none, front ++ map kept cs), rest)
select_items-columns [] front i zero rest h l f = absurd (omega arith)
select_items-columns [] front i (suc fuel) rest h l f = end_columns _ fuel rest
select_items-columns (c ∷ cs) front i fuel rest h l f =
    let e : fuel ≡ suc (suc (suc (suc (suc (suc (suc (suc (suc (suc (suc (fuel - 11))))))))))) =
      omega arith in
    let next = encode_columns (length front + 1) cs rest in
    ap
      (λ n.
        select_items n
          (record { index = i; columns = front ++ blank ∷ replicate (length cs) blank })
          (encode_column (length front + 1) c next))
      e
    ∙ column_step front (replicate (length cs) blank) blank c i (fuel - 11) next h.0 (omega arith)
    ∙ rw (length-append front (kept c ∷ []), append_assoc, append_assoc) at
        (select_items-columns cs (front ++ kept c ∷ []) (length front + 1) (fuel - 11) rest h.1
          (omega (arith, length-append front (kept c ∷ []))) (omega arith))

length-item :
    (k : ℕ) (payload : List ℕ) (rest : Stream)
    → length rest + 3 ≤ length (item_bytes k payload rest)
length-item k payload rest = omega (arith, length-append payload rest)

numbers_longer :
    (k : ℕ) (c : XsqlVar) (rest : Stream)
    → length rest
      ≤ length (
          item_bytes 9 (int32_to_bytes (pos k)) (
            item_bytes 11 (int32_to_bytes c.sqltype) (
              item_bytes 12 (int32_to_bytes c.sqlsubtype) (
                item_bytes 13 (int32_to_bytes c.sqlscale) (
                  item_bytes 14
                    (int32_to_bytes c.sqllen)
                    (item_bytes 15 (int32_to_bytes (flag c.null_ok)) rest))))))
unfolding int32_to_bytes
numbers_longer k c rest = omega arith

length-column :
    (k : ℕ) (c : XsqlVar) (rest : Stream) → length rest + 11 ≤ length (encode_column k c rest)
length-column k c rest =
    let i19 = item_bytes 19 c.aliasname (8 ∷ rest) in
    let i18 = item_bytes 18 c.ownname i19 in
    let i17 = item_bytes 17 c.relname i18 in
    let i16 = item_bytes 16 c.fieldname i17 in
    omega (
      arith,
      length-item 19 c.aliasname (8 ∷ rest),
      length-item 18 c.ownname i19,
      length-item 17 c.relname i18,
      length-item 16 c.fieldname i17,
      numbers_longer k c i16,
    )

-- An item has three bytes at least, so that a column's bytes pay for its rounds.
length-encode_columns :
    (k : ℕ) (cs : List XsqlVar) (rest : Stream) → 11 * length cs ≤ length (encode_columns k cs rest)
length-encode_columns k [] rest = omega arith
length-encode_columns k (c ∷ cs) rest = omega (
  arith,
  length-encode_columns (k + 1) cs rest,
  length-column (k + 1) c (encode_columns (k + 1) cs rest),
)

abbrev drop_rest : Result (Described × Stream) → Result Described
drop_rest r = elim r [ ok (d, rest) ↦ ok d | err e ↦ err e ]

-- A description that a server wrote of any columns is read back: every number, flag and name, and the
-- type without its nullable flag. There are fewer than 65536 columns, the numbers are of 32 bits, and
-- the names are shorter than 65536 bytes.
pub parse_select_items-encode_columns :
    (cs : List XsqlVar) (rest : Stream)
    → All Fits cs
    → length cs < 2 ^ 16
    → parse_select_items (encode_columns 0 cs rest) (replicate (length cs) blank)
      ≡ ok (none, map kept cs)
unfolding parse_select_items
parse_select_items-encode_columns cs rest h l = ap drop_rest (
    select_items-columns cs [] 0 (length (encode_columns 0 cs rest) + 1) rest h (omega arith)
      (omega (arith, length-encode_columns 0 cs rest)))
