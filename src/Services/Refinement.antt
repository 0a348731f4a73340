-- ===== src/Services/Refinement.antt =====
-- The managers against what their requests ask.
use firebirdsql_go.Base.{
  ◌≡◌, refl, ◌↔◌, none, some, List, map, true, All, ℕ, Option-cases, inl, inr,
}
use firebirdsql_go.Xpb.{XpbReader, new_reader, at_end}
use firebirdsql_go.Xpb.RoundTrip.{Fits, kind_of, read_fields, read_fields-put_fields}
use firebirdsql_go.Services.Users.{User, delete_user}
use firebirdsql_go.Services.Commands.{Command, ask_delete_user, perform}
use firebirdsql_go.Services.Requests.{request}
use firebirdsql_go.Services.Blocks.{IsNamed, perform-request}

-- A server that knows the kinds of the fields reads from the block of every method exactly the
-- request that the method stands for: the action, then its fields in their order, with no error
-- and nothing left. The values fit their fields, the strings being shorter than 2 ^ 15 bytes, and
-- a user to delete has a name.
pub requests_reach_server :
    (c : Command)
    → IsNamed c
    → All Fits (request c)
    → (spb : List ℕ) × (perform c ≡ some spb)
      × ((r : XpbReader) × (read_fields (map kind_of (request c)) (new_reader spb)
            ≡ some (r, request c))
          × (r.err ≡ none)
          × (at_end r ≡ true))
requests_reach_server c named fits =
    (_, perform-request c named, read_fields-put_fields (request c) fits)

-- Of all the methods that send a request, only DeleteUser can panic, and it does exactly when the
-- user has no name.
only_delete_user_panics :
    (c : Command)
    → (perform c ≡ none)
      ↔ ((sec : List ℕ) × (u : User) × (c ≡ ask_delete_user sec u) × (u.username ≡ none))
unfolding delete_user
only_delete_user_panics c = (λ h. from_panic c h, to_panic)
  where
    to_panic :
        ((sec : List ℕ) × (u : User) × (c ≡ ask_delete_user sec u) × (u.username ≡ none))
        → perform c ≡ none
    to_panic (sec, u, e, d) = rw (e, perform, d)

    from_panic :
        (c : Command)
        → perform c ≡ none
        → (sec : List ℕ) × (u : User) × (c ≡ ask_delete_user sec u) × (u.username ≡ none)
    from_panic (ask_delete_user sec u) h = elim (Option-cases u.username) [
      | inl e ↦ (sec, u, refl, e)
      | inr (name, e) ↦ cc (rw e at h)
    ]
    from_panic c h = cc h
