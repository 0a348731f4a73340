-- ===== src/Describe/Safety.antt =====
-- `_parse_select_items` on any buffer and any columns.
use firebirdsql_go.Base.{
  ℕ, zero, suc, ◌+◌, ◌-◌, ◌≤◌, ◌<◌, ◌≡◌, refl, ap, ◌∙◌, arith, ℤ, pos, negsuc, true, false, none,
  some, List, [], ◌∷◌, length, length-take, length-drop, leb, ltb, ◌==◌, if_either, if_cases,
}
use firebirdsql_go.Bytes.{bytes_to_int32, bytes_to_uint16}
use firebirdsql_go.Wire.{Result, ok, err, Recv, Stream}
use firebirdsql_go.Wire.Safety.{Safe, Expected, weaken, bind-Safe}
use firebirdsql_go.Describe.{
  XsqlVar, Items, slice_bytes, checked_bytes, int_payload, update_at, write, write_int, set_index,
  apply_item, item_payload, Described, select_items, parse_select_items,
}

-- As many columns as at first, and an index that is 0 or one of them.
pub record Sized (n : ℕ) (st : Items) : Type 0 where
  pub count : length st.columns ≡ n
  pub within : st.index ≤ n

-- The state stays so, and the buffer is not touched.
abbrev Stays : ℕ → Stream → Items → Stream → Type 0
Stays n s st rest = Sized n st × (length rest ≤ length s)

update_at_ok :
    (xs : List XsqlVar) (i : ℕ) (f : XsqlVar → XsqlVar)
    → i < length xs
    → (ys : List XsqlVar) × (update_at xs i f ≡ some ys) × (length ys ≡ length xs)
unfolding update_at
update_at_ok [] i f h = elim h [ ]
update_at_ok (x ∷ xs) zero f h = (f x ∷ xs, refl, refl)
update_at_ok (x ∷ xs) (suc i) f h =
    let (ys, e, l) = update_at_ok xs i f (omega arith) in (x ∷ ys, rw e refl, ap suc l)

write-Safe :
    {n : ℕ} (st : Items) (f : XsqlVar → XsqlVar) (s : Stream)
    → Sized n st
    → Safe (Stays n s) (write st f s)
unfolding write
write-Safe {n = n} st f s v =
    let P : Recv Items → Type 0 = λ m. Safe (Stays n s) (m s) in
    if_cases P (ltb st.index 1) (λ _. tt)
      λ low.
        if_cases P (ltb (length st.columns) st.index) (λ _. tt)
          λ high.
            let (ys, e, l) = update_at_ok st.columns (st.index - 1) f (ground arith) in
            rw (e, Safe) (record { count = l ∙ v.count; within = v.within }, omega arith)

int_of : (b : List ℕ) → ltb (length b) 4 ≡ false → (z : ℤ) × (bytes_to_int32 b ≡ some z)
unfolding bytes_to_int32
int_of [] h = absurd (ground arith)
int_of (a ∷ []) h = absurd (ground arith)
int_of (a ∷ b ∷ []) h = absurd (ground arith)
int_of (a ∷ b ∷ c ∷ []) h = absurd (ground arith)
int_of (a ∷ b ∷ c ∷ d ∷ s) h = (_, refl)

int_payload-Safe :
    (b : List ℕ) (s : Stream) → Safe (λ z rest. length rest ≤ length s) (int_payload b s)
unfolding int_payload
int_payload-Safe b s =
    if_cases {A = Recv ℤ} (λ m. Safe (λ z rest. length rest ≤ length s) (m s)) (ltb (length b) 4)
      (λ _. tt) (λ long. let (z, e) = int_of b long in rw (e, Safe) (omega arith))

write_int-Safe :
    {n : ℕ} (st : Items) (b : List ℕ) (f : ℤ → XsqlVar → XsqlVar) (s : Stream)
    → Sized n st
    → Safe (Stays n s) (write_int st b f s)
unfolding write_int
write_int-Safe {n = n} st b f s v =
    bind-Safe (Stays n s) (write st (λ x. x)) _ s (write-Safe st (λ x. x) s v) λ st' s1 p.
      bind-Safe (Stays n s) (int_payload b) (λ z. write st (f z)) s1 (int_payload-Safe b s1)
        λ z s2 q.
          weaken (write st (f z) s2) (λ st' rest t. (t.0, omega (arith, t.1, q, p.1)))
            (write-Safe st (f z) s2 v)

set_index-Safe :
    {n : ℕ} (st : Items) (z : ℤ) (s : Stream) → Sized n st → Safe (Stays n s) (set_index st z s)
unfolding set_index
set_index-Safe st (negsuc k) s v = tt
set_index-Safe {n = n} st (pos k) s v =
    let P : Recv Items → Type 0 = λ m. Safe (Stays n s) (m s) in
    if_cases P (ltb k 1) (λ _. tt)
      λ low.
        if_cases P (ltb (length st.columns) k) (λ _. tt)
          λ high. (record { count = v.count; within = ground (arith, v.count) }, omega arith)

apply_item-Safe :
    {n : ℕ} (item : ℕ) (b : List ℕ) (st : Items) (s : Stream)
    → Sized n st
    → Safe (Stays n s) (apply_item item b st s)
unfolding apply_item
apply_item-Safe {n = n} item b st s v =
    let P : Recv Items → Type 0 = λ m. Safe (Stays n s) (m s) in
    let number = λ (f : ℤ → XsqlVar → XsqlVar). write_int-Safe st b f s v in
    let text = λ (f : XsqlVar → XsqlVar). write-Safe st f s v in
    if_either P (item == 9)
      (bind-Safe (Stays n s) (int_payload b) (λ z. set_index st z) s (int_payload-Safe b s)
        λ z s1 p.
          weaken (set_index st z s1) (λ st' rest t. (t.0, omega (arith, t.1, p)))
            (set_index-Safe st z s1 v))
      (if_either P (item == 11) (number _) (
        if_either P (item == 12) (number _) (
          if_either P (item == 13) (number _) (
            if_either P (item == 14) (number _) (
              if_either P (item == 15) (number _) (
                if_either P (item == 16) (text _) (
                  if_either P (item == 17) (text _) (
                    if_either P (item == 18) (text _)
                      (if_either P (item == 19) (text _) (v, omega arith))))))))))

-- A slice within the buffer does not panic.
slice_bytes-Safe :
    (n : ℕ) (s : Stream)
    → leb n (length s) ≡ true
    → Safe (λ b rest. (length b ≡ n) × (length rest ≤ length s)) (slice_bytes n s)
unfolding slice_bytes
slice_bytes-Safe n s fits =
    rw (fits, Safe) (ground (arith, length-take n s), omega (arith, length-drop n s))

checked_bytes-Safe :
    (n : ℕ) (s : Stream)
    → Safe (λ b rest. (length b ≡ n) × (length rest ≤ length s)) (checked_bytes n s)
unfolding checked_bytes
checked_bytes-Safe n s =
    if_cases (Safe (λ b rest. (length b ≡ n) × (length rest ≤ length s))) (leb n (length s))
      (λ fits. slice_bytes-Safe n s fits) (λ _. tt)

short_of : (b : List ℕ) → length b ≡ 2 → (z : ℕ) × (bytes_to_uint16 b ≡ some z)
unfolding bytes_to_uint16
short_of [] h = absurd (omega arith)
short_of (a ∷ []) h = absurd (omega arith)
short_of (a ∷ b ∷ s) h = (_, refl)

item_payload-Safe : (s : Stream) → Safe (λ b rest. length rest ≤ length s) (item_payload s)
unfolding item_payload
item_payload-Safe s = bind-Safe _ (checked_bytes 2) _ s (checked_bytes-Safe 2 s) λ b s1 p.
    let (ln, e) = short_of b p.0 in
    rw (e, Safe)
      (weaken (checked_bytes ln s1) (λ c rest t. omega (arith, t.1, p.1))
        (checked_bytes-Safe ln s1))

-- The columns as many as before, and an index to go on from that is one of them.
abbrev pub InColumns : ℕ → Described → Type 0
InColumns n (none, xs) = length xs ≡ n
InColumns n (some i, xs) = (length xs ≡ n) × (i ≤ n)

select_items-Safe :
    {n : ℕ} (fuel : ℕ) (st : Items) (s : Stream)
    → Sized n st
    → length s < fuel
    → Safe (λ d rest. InColumns n d) (select_items fuel st s)
unfolding select_items
select_items-Safe zero st s v h = absurd (omega arith)
select_items-Safe (suc fuel) st [] v h = v.count
select_items-Safe {n = n} (suc fuel) st (item ∷ rest) v h =
    let P : Result (Described × Stream) → Type 0 = Safe (λ d rest. InColumns n d) in
    if_either P (item == 1) v.count (
      if_either P (item == 2) (v.count, v.within)
        (if_either P (item == 8) (select_items-Safe fuel st rest v (omega arith)) (
          bind-Safe _ item_payload _ rest (item_payload-Safe rest) λ payload s1 p.
            bind-Safe _ (apply_item item payload st) (λ st'. select_items fuel st') s1
              (apply_item-Safe item payload st s1 v)
              λ st' s2 t. select_items-Safe fuel st' s2 t.0 (omega (arith, h, p, t.1)))))

-- A result that is an expected fault, or has the property.
abbrev pub Returns : (Described → Type 0) → Result Described → Type 0
Returns P (ok d) = P d
Returns P (err e) = Expected e

outcome_of :
    (P : Described → Type 0) (r : Result (Described × Stream))
    → Safe (λ d rest. P d) r
    → Returns P (elim r [ ok (d, rest) ↦ ok d | err e ↦ err e ])
outcome_of P (ok (d, rest)) h = h
outcome_of P (err e) h = h

-- On every buffer and for any columns the parser ends, without a panic. It returns as many columns
-- as it was given, and the index to go on from is at most their number.
pub parse_select_items-Safe :
    (buf : List ℕ) (xsqlda : List XsqlVar)
    → Returns (InColumns (length xsqlda)) (parse_select_items buf xsqlda)
unfolding parse_select_items
parse_select_items-Safe buf xsqlda =
    outcome_of _ (select_items (length buf + 1) (record { index = 0; columns = xsqlda }) buf) (
      select_items-Safe (length buf + 1) (record { index = 0; columns = xsqlda }) buf
        (record { count = refl; within = omega arith }) (omega arith))
