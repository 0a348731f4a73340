-- ===== src/Wire/Status/Warnings.antt =====
-- The parameters of a warning are read and dropped.
use firebirdsql_go.Base.{
  ℕ, ◌≡◌, refl, ap, ◌∙◌, ℤ, Bool, true, false, not, ◌&&◌, List, [], ◌∷◌, All, if_cases, bytes_eq,
}
use firebirdsql_go.Texts.{itoa}
use firebirdsql_go.Wire.Status.{
  Parser, Arg, is_arg, is_zero, isc_sqlerr, gds, warning, number, string, interpreted,
  sql_state_arg, other, substitute, apply_arg,
}
use firebirdsql_go.Wire.Status.RoundTrip.{run_args}
use firebirdsql_go.Wire.Status.Collected.{Holds, then-Holds, weaken-Holds}

-- Anything but a GDS code.
abbrev pub IsDetail : Arg → Type 0
IsDetail (gds c) = ⊥
IsDetail _ = Unit

-- Still in a warning, with the same error.
pub record SameError (p q : Parser) : Type 0 where
  pub warns : q.in_warning ≡ true
  pub same_codes : q.sv.gds_codes ≡ p.sv.gds_codes
  pub same_code : q.sv.sql_code ≡ p.sv.sql_code
  pub same_state : q.sv.sql_state ≡ p.sv.sql_state
  pub same_params : q.sv.params ≡ p.sv.params
  pub same_message : q.sv.message ≡ p.sv.message

stay : (p q : Parser) → q.in_warning ≡ true → q.sv ≡ p.sv → SameError p q
stay p q w e = record {
  warns = w;
  same_codes = ap (λ v. v.gds_codes) e;
  same_code = ap (λ v. v.sql_code) e;
  same_state = ap (λ v. v.sql_state) e;
  same_params = ap (λ v. v.params) e;
  same_message = ap (λ v. v.message) e;
}

follow : {p q r : Parser} → SameError p q → SameError q r → SameError p r
follow h k = record {
  warns = k.warns;
  same_codes = k.same_codes ∙ h.same_codes;
  same_code = k.same_code ∙ h.same_code;
  same_state = k.same_state ∙ h.same_state;
  same_params = k.same_params ∙ h.same_params;
  same_message = k.same_message ∙ h.same_message;
}

guarded : (w b : Bool) → w ≡ true → not w && b ≡ true → ⊥
guarded true b e h = cc
guarded false b e h = cc

outside : {w : Bool} → w ≡ true → w ≡ false → ⊥
outside e h = cc

substitute-SameError :
    (p : Parser) (s : List ℕ) → p.in_warning ≡ true → Holds (SameError p) (substitute p s)
unfolding substitute
substitute-SameError p s w =
    if_cases (Holds (SameError p)) p.in_warning (λ _. stay p _ w refl) (λ n. absurd (outside w n))

apply_arg-SameError :
    (errmsgs : ℤ → List ℕ) (p : Parser) (a : Arg)
    → p.in_warning ≡ true
    → IsDetail a
    → Holds (SameError p) (apply_arg errmsgs p a)
unfolding apply_arg
apply_arg-SameError errmsgs p (gds c) w d = elim d [ ]
apply_arg-SameError errmsgs p (warning c) w d =
    if_cases (Holds (SameError p)) (is_zero c) (λ _. stay p _ w refl)
      (λ _. record {
        warns = refl;
        same_codes = refl;
        same_code = refl;
        same_state = refl;
        same_params = refl;
        same_message = refl;
      })
apply_arg-SameError errmsgs p (number z) w d =
    if_cases (Holds (SameError p)) (not p.in_warning && is_arg p.gds_code isc_sqlerr)
      (λ b. absurd (guarded _ _ w b)) (λ _. substitute-SameError p (itoa z) w)
apply_arg-SameError errmsgs p (string s) w d = substitute-SameError p s w
apply_arg-SameError errmsgs p (interpreted s) w d =
    if_cases (Holds (SameError p)) p.in_warning (λ _. stay p p w refl) (λ n. absurd (outside w n))
apply_arg-SameError errmsgs p (sql_state_arg s) w d =
    if_cases (Holds (SameError p)) (not p.in_warning && bytes_eq p.sv.sql_state [])
      (λ b. absurd (guarded _ _ w b)) (λ _. stay p p w refl)
apply_arg-SameError errmsgs p (other n) w d = stay p p w refl

details_keep_error :
    (errmsgs : ℤ → List ℕ) (p : Parser) (args : List Arg)
    → p.in_warning ≡ true
    → All IsDetail args
    → Holds (SameError p) (run_args errmsgs p args)
details_keep_error errmsgs p [] w d = stay p p w refl
details_keep_error errmsgs p (a ∷ more) w d =
    then-Holds (SameError p) (SameError p) (apply_arg errmsgs p a) (λ q. run_args errmsgs q more)
      (apply_arg-SameError errmsgs p a w d.0)
      (λ q h.
        weaken-Holds (SameError q) (SameError p) (run_args errmsgs q more) (λ r k. follow h k)
          (details_keep_error errmsgs q more h.warns d.1))

warning-SameError :
    (errmsgs : ℤ → List ℕ) (p : Parser) (c : ℤ)
    → is_zero c ≡ false
    → Holds (SameError p) (apply_arg errmsgs p (warning c))
unfolding apply_arg
warning-SameError errmsgs p c nonzero =
    if_cases (Holds (SameError p)) (is_zero c) (λ z. absurd (outside z nonzero))
      (λ _. record {
        warns = refl;
        same_codes = refl;
        same_code = refl;
        same_state = refl;
        same_params = refl;
        same_message = refl;
      })

-- From any state of the parser, a warning with a code that is not 0 and whatever follows it but an
-- error's code, further warnings included, leave the error as it was before the warning: its codes,
-- its SQL code and state, its parameters and its message.
pub warning_keeps_error :
    (errmsgs : ℤ → List ℕ) (p : Parser) (c : ℤ) (args : List Arg)
    → is_zero c ≡ false
    → All IsDetail args
    → Holds (SameError p) (run_args errmsgs p (warning c ∷ args))
warning_keeps_error errmsgs p c args nonzero details =
    then-Holds (SameError p) (SameError p) (apply_arg errmsgs p (warning c))
      (λ q. run_args errmsgs q args) (warning-SameError errmsgs p c nonzero)
      (λ q h.
        weaken-Holds (SameError q) (SameError p) (run_args errmsgs q args) (λ r k. follow h k)
          (details_keep_error errmsgs q args h.warns details))
