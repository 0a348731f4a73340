-- ===== src/Wire/Status/Invariant.antt =====
-- The parser's lists stay in step, so that the index of the current code is never out of range.
use firebirdsql_go.Base.{
  ℕ, zero, suc, ◌<◌, ◌≡◌, refl, sym, ap, ◌∙◌, subst, arith, ℤ, not, ◌&&◌, Option, none, some, List,
  [], ◌∷◌, length, length-append, bytes_eq, if_either,
}
use firebirdsql_go.Texts.{itoa}
use firebirdsql_go.Wire.Status.{
  Parser, Arg, gds, warning, number, string, interpreted, sql_state_arg, other, is_arg, isc_sqlerr,
  append_at, append_current, fill, substitute, apply_arg, is_zero, new_parser,
}

abbrev pub InRange : Option ℕ → ℕ → Type 0
InRange none n = Unit
InRange (some i) n = i < n

-- One list of parameters for each code, and a current code that is one of them.
pub record Valid (p : Parser) : Type 0 where
  pub aligned : length p.sv.params ≡ length p.sv.gds_codes
  pub current : InRange p.current_idx (length p.sv.params)

append_at_ok :
    (ps : List (List (List ℕ))) (i : ℕ) (s : List ℕ)
    → i < length ps
    → (qs : List (List (List ℕ))) × (append_at ps i s ≡ some qs) × (length qs ≡ length ps)
append_at_ok [] i s h = elim h [ ]
append_at_ok (p ∷ ps) zero s h = (_, refl, refl)
append_at_ok (p ∷ ps) (suc i) s h =
    let (qs, e, l) = append_at_ok ps i s (omega arith) in (p ∷ qs, rw e refl, ap suc l)

append_current_ok :
    (ps : List (List (List ℕ))) (i : Option ℕ) (s : List ℕ)
    → InRange i (length ps)
    → (qs : List (List (List ℕ))) × (append_current ps i s ≡ some qs) × (length qs ≡ length ps)
append_current_ok ps none s h = (ps, refl, refl)
append_current_ok ps (some i) s h = append_at_ok ps i s h

-- The step returns, and the lists stay in step.
abbrev pub StaysValid : Option Parser → Type 0
StaysValid o = (q : Parser) × (o ≡ some q) × Valid q

stays : (q : Parser) → Valid q → StaysValid (some q)
stays q v = (q, refl, v)

fill-Valid : (p : Parser) (s : List ℕ) → Valid p → StaysValid (fill p s)
unfolding fill
fill-Valid p s v =
    let (qs, e, l) = append_current_ok p.sv.params p.current_idx s v.current in
    rw (e, fill)
      (stays _ record {
        aligned = l ∙ v.aligned;
        current = subst (λ n. InRange p.current_idx n) (sym l) v.current;
      })

substitute-Valid : (p : Parser) (s : List ℕ) → Valid p → StaysValid (substitute p s)
unfolding substitute
substitute-Valid p s v =
    if_either StaysValid p.in_warning (stays _ record { aligned = v.aligned; current = v.current })
      (fill-Valid _ s record { aligned = v.aligned; current = v.current })

pub apply_arg-Valid :
    (errmsgs : ℤ → List ℕ) (p : Parser) (a : Arg) → Valid p → StaysValid (apply_arg errmsgs p a)
unfolding apply_arg
apply_arg-Valid errmsgs p (gds c) v =
    if_either StaysValid (is_zero c) (stays _ record { aligned = v.aligned; current = v.current }) (
      stays _ record {
        aligned = omega (
          arith,
          v.aligned,
          length-append p.sv.params ([] ∷ []),
          length-append p.sv.gds_codes (c ∷ []),
        );
        current = omega (arith, v.aligned, length-append p.sv.params ([] ∷ []));
      })
apply_arg-Valid errmsgs p (warning c) v =
    if_either StaysValid (is_zero c) (stays p v)
      (stays _ record { aligned = v.aligned; current = v.current })
apply_arg-Valid errmsgs p (number z) v =
    if_either StaysValid (not p.in_warning && is_arg p.gds_code isc_sqlerr)
      (substitute-Valid _ (itoa z) record { aligned = v.aligned; current = v.current })
      (substitute-Valid p (itoa z) v)
apply_arg-Valid errmsgs p (string s) v = substitute-Valid p s v
apply_arg-Valid errmsgs p (interpreted s) v =
    if_either StaysValid p.in_warning (stays p v)
      (stays _ record { aligned = v.aligned; current = v.current })
apply_arg-Valid errmsgs p (sql_state_arg s) v =
    if_either StaysValid (not p.in_warning && bytes_eq p.sv.sql_state [])
      (stays _ record { aligned = v.aligned; current = v.current }) (stays p v)
apply_arg-Valid errmsgs p (other n) v = stays p v

pub new_parser-Valid : Valid new_parser
new_parser-Valid = record { aligned = refl; current = tt }
