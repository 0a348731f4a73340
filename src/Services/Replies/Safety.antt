-- ===== src/Services/Replies/Safety.antt =====
-- The loops over the tags end within their fuel and never panic.
use firebirdsql_go.Base.{
  ℕ, zero, suc, ◌+◌, ◌-◌, ◌≤◌, ◌<◌, ◌≡◌, refl, ap, ◌⊎◌, if◌then◌else◌, arith, ◌==◌, ℤ, Bool, true,
  false, Option, none, some, inl, inr, List, [], length, get_elem?-lt, leb, Bool-cases, ◌>>=◌,
}
use firebirdsql_go.Xpb.{XpbReader, Read, new_reader, next, get_string}
use firebirdsql_go.Xpb.Bounds.{
  InBounds, Kept, Safe, get_string-Safe, get_int32-Safe, get_int64-Safe, skip_within-Kept,
}
use firebirdsql_go.Services.Replies.{
  Turn, go, leave, loop, mapped, limbo_step, parse_limbo, Listing, start_user, no_users, user_field,
  user_step, parse_users, SrvDbInfo, db_info_step, read_db_info, get_svr_db_info,
}
use firebirdsql_go.Services.Info.{Info, value, error, get_service_info}
use firebirdsql_go.Services.Users.{User}
use firebirdsql_go.Services.Consts.{isc_info_svc_svr_db_info, isc_spb_sec_username}

mapped-Safe :
    {A B : Type 0} (f : A → B) (r : XpbReader) (m : Read A) → Safe r m → Safe r (mapped f m)
mapped-Safe f r m (q, a, e, k) = (q, f a, rw e, k)

Kept-refl : (r : XpbReader) → InBounds r → Kept r r
Kept-refl r h = record {
  same_buf = refl;
  bounded = h;
  sticky = λ f e. e;
  forward = λ b. omega arith;
}

some-Safe : {A : Type 0} (r q : XpbReader) (a : A) → Kept r q → Safe r (some (q, a))
some-Safe r q a k = (q, a, refl, k)

-- The end of the buffer, or a tag and the cursor behind it.
next_cases :
    (r : XpbReader)
    → InBounds r
    → (next r ≡ some (r, none))
      ⊎ ((b : ℕ) × (next r ≡ some (record r { cursor = r.cursor + 1 }, some b))
          × (r.cursor + 1 ≤ length r.buf))
unfolding next
next_cases r h = elim (Bool-cases (leb (length r.buf) r.cursor)) [
  | inl done ↦ inl (rw done)
  | inr more ↦
      let (b, e) = get_elem?-lt r.buf r.cursor (ground arith) in inr (b, rw (more, e), ground arith)
]

-- A body that is safe wherever the cursor stands in the buffer.
abbrev SafeStep : {S : Type 0} → (ℕ → S → XpbReader → Read (Turn S)) → Type 0
SafeStep {S = S} step = (tag : ℕ) (s : S) (r : XpbReader) → InBounds r → Safe r (step tag s r)

turn_total :
    {S : Type 0} (step : ℕ → S → XpbReader → Read (Turn S)) (fuel : ℕ) (p : XpbReader) (t : Turn S)
    → ((u : S) → (q : XpbReader) × (v : S) × (loop step fuel u p ≡ some (q, v)))
    → (q : XpbReader) × (v : S) × ((elim t [ go u ↦ loop step fuel u p | leave u ↦ some (p, u) ])
        ≡ some (q, v))
turn_total step fuel p (go u) h = h u
turn_total step fuel p (leave u) h = (p, u, refl)

loop_total :
    {S : Type 0} (step : ℕ → S → XpbReader → Read (Turn S))
    → SafeStep step
    → (fuel : ℕ) (s : S) (r : XpbReader) → InBounds r
    → length r.buf - r.cursor < fuel
    → (q : XpbReader) × (v : S) × (loop step fuel s r ≡ some (q, v))
unfolding loop
loop_total step h zero s r b lt = absurd (omega arith)
loop_total step h (suc fuel) s r b lt = elim (next_cases r b) [
  | inl e ↦ (r, s, rw e)
  | inr (tag, e, inside) ↦
      let (p, t, d, k) = h tag s (record r { cursor = r.cursor + 1 }) inside in
      let (q, v, g) = turn_total step fuel p t λ u.
        loop_total step h fuel u p (rw k.same_buf k.bounded)
          (omega (arith, k.forward inside, ap length k.same_buf)) in
      (q, v, rw (e, d, g))
]

if-Safe :
    {A : Type 0} (r : XpbReader) (b : Bool) {x y : Read A}
    → Safe r x
    → Safe r y
    → Safe r (if b then x else y)
if-Safe r true h k = h
if-Safe r false h k = k

ruleset reads = (
  if-Safe, mapped-Safe, some-Safe, skip_within-Kept, Kept-refl, get_int32-Safe, get_int64-Safe,
  get_string-Safe,
)

limbo_step-Safe : SafeStep limbo_step
unfolding limbo_step
limbo_step-Safe tag s r h = search reads depth 12

user_field-Safe :
    (tag : ℕ) (l : Listing) (u : User) (r : XpbReader) → InBounds r → Safe r (user_field tag l u r)
unfolding user_field
user_field-Safe tag l u r h = search reads depth 12

user_step-Safe : SafeStep user_step
unfolding user_step
user_step-Safe tag l r h =
    if-Safe r (tag == isc_spb_sec_username)
      (mapped-Safe (λ name. go (start_user l name)) r (get_string r) (get_string-Safe r))
      (open_user l.user)
  where
    open_user :
        (o : Option User)
        → Safe r (elim o [
          | none ↦ some (r, leave (record l { early = some tag }))
          | some u ↦ user_field tag l u r
        ])
    open_user none = some-Safe r r _ (Kept-refl r h)
    open_user (some u) = user_field-Safe tag l u r h

db_info_step-Safe : SafeStep db_info_step
unfolding db_info_step
db_info_step-Safe tag i r h = search reads depth 12

-- On every buffer, from its start.
from_start :
    {S : Type 0} (step : ℕ → S → XpbReader → Read (Turn S)) (s : S) (buf : List ℕ)
    → SafeStep step
    → (p : XpbReader × S) × (loop step (length buf + 1) s (new_reader buf) ≡ some p)
unfolding new_reader
from_start step s buf h =
    let (q, t, e) =
      loop_total step h (length buf + 1) s (new_reader buf) (omega arith) (omega arith) in
    ((q, t), e)

-- What follows a loop returns if the loop does.
then_returns :
    {A B : Type 0} (m : Option A) (f : A → B)
    → (a : A) × (m ≡ some a)
    → (b : B) × ((m >>= λ a. some (f a)) ≡ some b)
then_returns m f (a, e) = (f a, rw e)

db_info_total :
    (response : Option (List ℕ)) → (i : Info SrvDbInfo) × (get_svr_db_info response ≡ some i)
unfolding get_svr_db_info read_db_info
db_info_total response = of_response (get_service_info response isc_info_svc_svr_db_info)
  where
    of_response :
        (r : Info (List ℕ))
        → (i : Info SrvDbInfo) × ((elim r [
          | error e ↦ some (error e)
          | value buf ↦ read_db_info buf
        ])
            ≡ some i)
    of_response (error e) = (error e, refl)
    of_response (value buf) = then_returns _ _ (from_start db_info_step _ buf db_info_step-Safe)

-- On every buffer the parsers of limbo transactions, of users and of the databases of a server
-- end, on fuel that the length of the buffer bounds, without a panic.
pub replies_total :
    (acc : List ℕ) (response : Option (List ℕ))
    → ((i : Info (List ℤ)) × (parse_limbo acc ≡ some i))
      × ((i : Info (List User)) × (parse_users acc ≡ some i))
      × ((i : Info SrvDbInfo) × (get_svr_db_info response ≡ some i))
unfolding parse_limbo parse_users
replies_total acc response = (
  then_returns _ _ (from_start limbo_step [] acc limbo_step-Safe),
  then_returns _ _ (from_start user_step no_users acc user_step-Safe),
  db_info_total response,
)
