-- ===== src/Wire/Status/Collected.antt =====
-- What the parser collects: the codes and the warnings in the order sent; the parameters of a warning
-- leave the error alone.
use firebirdsql_go.Base.{
  ℕ, ◌≡◌, refl, sym, ap, arith, ℤ, pos, negsuc, Bool, true, false, not, ◌&&◌, Option, none, some,
  List, [], ◌∷◌, ◌++◌, length, length-append, append-nil, append_assoc, if_either, if_cases,
  if◌then◌else◌, Bool-cases, inl, inr, bytes_eq,
}
use firebirdsql_go.Texts.{itoa}
use firebirdsql_go.Wire.Status.{
  Parser, Arg, is_arg, is_zero, isc_sqlerr, gds, warning, number, string, interpreted,
  sql_state_arg, other, append_current, fill, substitute, apply_arg, new_parser,
}
use firebirdsql_go.Wire.Status.RoundTrip.{run_args}

-- The nonzero codes that an argument adds.
abbrev new_codes : Arg → List ℤ
new_codes (gds c) = if is_zero c then [] else c ∷ []
new_codes _ = []

abbrev new_warnings : Arg → List ℤ
new_warnings (warning c) = if is_zero c then [] else c ∷ []
new_warnings _ = []

abbrev pub codes_sent : List Arg → List ℤ
codes_sent [] = []
codes_sent (a ∷ more) = new_codes a ++ codes_sent more

abbrev pub warnings_sent : List Arg → List ℤ
warnings_sent [] = []
warnings_sent (a ∷ more) = new_warnings a ++ warnings_sent more

-- Of a step that returns.
abbrev pub Holds : (Parser → Type 0) → Option Parser → Type 0
Holds P none = Unit
Holds P (some q) = P q

-- Both lists grow by what the argument adds.
record Grown (p : Parser) (codes warns : List ℤ) (q : Parser) : Type 0 where
  pub codes_grown : q.sv.gds_codes ≡ p.sv.gds_codes ++ codes
  pub warnings_grown : q.sv.warnings ≡ p.sv.warnings ++ warns

same : (p : Parser) → Grown p [] [] p
same p = record {
  codes_grown = sym (append-nil p.sv.gds_codes);
  warnings_grown = sym (append-nil p.sv.warnings);
}

-- `fill` changes the message and the parameters, and nothing else.
onto-Holds :
    {A : Type 0} (P : Parser → Type 0) (f : A → Parser) (o : Option A)
    → ((a : A) → P (f a))
    → Holds P (elim o [ none ↦ none | some a ↦ some (f a) ])
onto-Holds P f none h = tt
onto-Holds P f (some a) h = h a

fill-Holds :
    (P : Parser → Type 0) (p : Parser) (s : List ℕ)
    → ((m : List ℕ) (ps : List (List (List ℕ)))
        → P (record p { sv = record (p.sv) { message = m; params = ps } }))
    → Holds P (fill p s)
unfolding fill
fill-Holds P p s h = onto-Holds P _ (append_current p.sv.params p.current_idx s) (λ ps. h _ ps)

pub then-Holds :
    (P Q : Parser → Type 0) (o : Option Parser) (f : Parser → Option Parser)
    → Holds P o
    → ((q : Parser) → P q → Holds Q (f q))
    → Holds Q (elim o [ none ↦ none | some q ↦ f q ])
then-Holds P Q none f h k = tt
then-Holds P Q (some q) f h k = k q h

pub weaken-Holds :
    (P Q : Parser → Type 0) (o : Option Parser) → ((q : Parser) → P q → Q q) → Holds P o → Holds Q o
weaken-Holds P Q none k h = tt
weaken-Holds P Q (some q) k h = k q h

substitute-Grown : (p : Parser) (s : List ℕ) → Holds (Grown p [] []) (substitute p s)
unfolding substitute
substitute-Grown p s =
    if_either (Holds (Grown p [] [])) p.in_warning
      record { codes_grown = (same p).codes_grown; warnings_grown = (same p).warnings_grown }
      (fill-Holds (Grown p [] []) _ s λ m ps. record {
        codes_grown = (same p).codes_grown;
        warnings_grown = (same p).warnings_grown;
      })

apply_arg-Grown :
    (errmsgs : ℤ → List ℕ) (p : Parser) (a : Arg)
    → Holds (Grown p (new_codes a) (new_warnings a)) (apply_arg errmsgs p a)
unfolding apply_arg
apply_arg-Grown errmsgs p (gds c) = elim (Bool-cases (is_zero c)) [
  | inl z ↦
      rw z record { codes_grown = (same p).codes_grown; warnings_grown = (same p).warnings_grown }
  | inr z ↦ rw z record { codes_grown = refl; warnings_grown = (same p).warnings_grown }
]
apply_arg-Grown errmsgs p (warning c) = elim (Bool-cases (is_zero c)) [
  | inl z ↦ rw z (same p)
  | inr z ↦ rw z record { codes_grown = (same p).codes_grown; warnings_grown = refl }
]
apply_arg-Grown errmsgs p (number z) =
    if_either (Holds (Grown p [] [])) (not p.in_warning && is_arg p.gds_code isc_sqlerr)
      (weaken-Holds _ (Grown p [] []) _
        (λ q g. record { codes_grown = g.codes_grown; warnings_grown = g.warnings_grown })
        (substitute-Grown (record p { sv = record (p.sv) { sql_code = z } }) (itoa z)))
      (substitute-Grown p (itoa z))
apply_arg-Grown errmsgs p (string s) = substitute-Grown p s
apply_arg-Grown errmsgs p (interpreted s) =
    if_either (Holds (Grown p [] [])) p.in_warning (same p)
      record { codes_grown = (same p).codes_grown; warnings_grown = (same p).warnings_grown }
apply_arg-Grown errmsgs p (sql_state_arg s) =
    if_either (Holds (Grown p [] [])) (not p.in_warning && bytes_eq p.sv.sql_state [])
      record { codes_grown = (same p).codes_grown; warnings_grown = (same p).warnings_grown }
      (same p)
apply_arg-Grown errmsgs p (other n) = same p

run_args-Grown :
    (errmsgs : ℤ → List ℕ) (p : Parser) (args : List Arg)
    → Holds (Grown p (codes_sent args) (warnings_sent args)) (run_args errmsgs p args)
run_args-Grown errmsgs p [] = same p
run_args-Grown errmsgs p (a ∷ more) =
    then-Holds _ _ (apply_arg errmsgs p a) (λ q. run_args errmsgs q more)
      (apply_arg-Grown errmsgs p a)
      λ q g.
        weaken-Holds _ _ (run_args errmsgs q more)
          (λ r k. record {
            codes_grown = rw (k.codes_grown, g.codes_grown, append_assoc) refl;
            warnings_grown = rw (k.warnings_grown, g.warnings_grown, append_assoc) refl;
          })
          (run_args-Grown errmsgs q more)

-- No code was sent yet, so that no SQL code was either.
Quiet : Parser → Type 0
Quiet p = p.sv.gds_codes ≡ [] → (p.sv.sql_code ≡ pos 0) × (is_arg p.gds_code isc_sqlerr ≡ false)

some_code : (cs : List ℤ) (c : ℤ) → cs ++ c ∷ [] ≡ [] → ⊥
some_code cs c e = omega (arith, ap length e, length-append cs (c ∷ []))

zero_code : (c : ℤ) → is_zero c ≡ true → is_arg c isc_sqlerr ≡ false
zero_code (pos n) e = ground arith
zero_code (negsuc n) e = refl

not_both : (a b : Bool) → a && b ≡ true → b ≡ false → ⊥
not_both true b e k = cc
not_both false b e k = cc

substitute-Quiet : (p : Parser) (s : List ℕ) → Quiet p → Holds Quiet (substitute p s)
unfolding substitute Quiet
substitute-Quiet p s h =
    if_either (Holds Quiet) p.in_warning (λ e. h e) (fill-Holds Quiet _ s λ m ps e. h e)

apply_arg-Quiet :
    (errmsgs : ℤ → List ℕ) (p : Parser) (a : Arg) → Quiet p → Holds Quiet (apply_arg errmsgs p a)
unfolding apply_arg Quiet
apply_arg-Quiet errmsgs p (gds c) h =
    if_cases (Holds Quiet) (is_zero c) (λ z e. ((h e).0, zero_code c z))
      (λ z e. absurd (some_code p.sv.gds_codes c e))
apply_arg-Quiet errmsgs p (warning c) h = if_either (Holds Quiet) (is_zero c) h (λ e. h e)
apply_arg-Quiet errmsgs p (number z) h =
    if_cases (Holds Quiet) (not p.in_warning && is_arg p.gds_code isc_sqlerr)
      (λ b. substitute-Quiet _ (itoa z) (λ e. absurd (not_both _ _ b (h e).1)))
      (λ b. substitute-Quiet p (itoa z) h)
apply_arg-Quiet errmsgs p (string s) h = substitute-Quiet p s h
apply_arg-Quiet errmsgs p (interpreted s) h = if_either (Holds Quiet) p.in_warning h (λ e. h e)
apply_arg-Quiet errmsgs p (sql_state_arg s) h =
    if_either (Holds Quiet) (not p.in_warning && bytes_eq p.sv.sql_state []) (λ e. h e) h
apply_arg-Quiet errmsgs p (other n) h = h

run_args-Quiet :
    (errmsgs : ℤ → List ℕ) (p : Parser) (args : List Arg)
    → Quiet p
    → Holds Quiet (run_args errmsgs p args)
run_args-Quiet errmsgs p [] h = h
run_args-Quiet errmsgs p (a ∷ more) h =
    then-Holds Quiet Quiet (apply_arg errmsgs p a) (λ q. run_args errmsgs q more)
      (apply_arg-Quiet errmsgs p a h) (λ q k. run_args-Quiet errmsgs q more k)

new_parser-Quiet : Quiet new_parser
unfolding Quiet
new_parser-Quiet e = (refl, refl)

-- From a new parser: the codes and the warnings are the nonzero ones sent, in their order, and
-- there is no SQL code without a GDS code.
pub collects :
    (errmsgs : ℤ → List ℕ) (args : List Arg) (q : Parser)
    → run_args errmsgs new_parser args ≡ some q
    → (q.sv.gds_codes ≡ codes_sent args)
      × (q.sv.warnings ≡ warnings_sent args)
      × (q.sv.gds_codes ≡ [] → q.sv.sql_code ≡ pos 0)
unfolding Quiet
collects errmsgs args q e =
    let g = rw e at (run_args-Grown errmsgs new_parser args) in
    let k = rw e at (run_args-Quiet errmsgs new_parser args new_parser-Quiet) in
    (g.codes_grown, g.warnings_grown, λ n. (k n).0)
