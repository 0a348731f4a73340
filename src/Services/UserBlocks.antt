-- ===== src/Services/UserBlocks.antt =====
-- The blocks of user_manager.go are the blocks of its requests.
use firebirdsql_go.Base.{
  ℕ, zero, suc, ◌≡◌, refl, ◌∙◌, sym, ap, ℤ, pos, negsuc, Bool, true, false, not, Option, none, some,
  List, [], ◌∷◌, ◌++◌, append_assoc, if◌then◌else◌,
}
use firebirdsql_go.Xpb.{writer_from_tag, put_tag, put_string, put_int32, put_bytes}
use firebirdsql_go.Xpb.RoundTrip.{Field, tag_field, put_field, put_fields, put_fields-bytes}
use firebirdsql_go.Services.{is_empty}
use firebirdsql_go.Services.Users.{
  User, put_optional, put_if_set, put_admin, user_action, new_user, with_username, get_spb,
  add_user, modify_user, delete_user, display_users, set_admin_role_mapping,
  drop_admin_role_mapping,
}
use firebirdsql_go.Services.Consts.{
  isc_spb_dbname, isc_action_svc_add_user, isc_action_svc_modify_user, isc_action_svc_delete_user,
}
use firebirdsql_go.Services.Commands.{
  ask_add_user, ask_delete_user, ask_modify_user, ask_users, ask_set_mapping, ask_drop_mapping,
}
use firebirdsql_go.Services.Requests.{
  request, given, nonempty, user_fields, unless_default, admin_field,
}

-- The field of the security database, which is the last of the requests on users.
put_security_db :
    (w sec : List ℕ)
    → (if not (is_empty sec) then put_string w isc_spb_dbname sec else w)
      ≡ put_fields w (nonempty isc_spb_dbname sec [])
unfolding put_fields put_field put_string
put_security_db w [] = refl
put_security_db w (c ∷ cs) = refl

put_given :
    (w : List ℕ) (tag : ℕ) (o : Option (List ℕ)) (fs : List Field)
    → put_fields w (given tag o fs) ≡ put_fields (put_optional w tag o) fs
unfolding put_fields put_field put_string
put_given w tag none fs = refl
put_given w tag (some s) fs = refl

put_unless_default :
    (w : List ℕ) (tag : ℕ) (n : ℤ) (fs : List Field)
    → put_fields w (unless_default tag n fs) ≡ put_fields (put_if_set w tag n) fs
unfolding put_fields put_field put_int32
put_unless_default w tag (pos n) fs = refl
put_unless_default w tag (negsuc zero) fs = refl
put_unless_default w tag (negsuc (suc n)) fs = refl

put_admin_field :
    (w : List ℕ) (o : Option Bool) (fs : List Field)
    → put_fields w (admin_field o fs) ≡ put_fields (put_admin w o) fs
unfolding put_fields put_field put_int32
put_admin_field w none fs = refl
put_admin_field w (some true) fs = refl
put_admin_field w (some false) fs = refl

-- The fields of a user behind what is written already: `get_spb` starts with nothing.
put_user_fields :
    (u : User) (fs : List Field) → put_fields [] (user_fields u fs) ≡ put_fields (get_spb u) fs
unfolding get_spb
put_user_fields u fs =
    put_given _ _ u.username _
    ∙ put_given _ _ u.password _
    ∙ put_given _ _ u.first_name _
    ∙ put_given _ _ u.middle_name _
    ∙ put_given _ _ u.last_name _
    ∙ put_unless_default _ _ u.user_id _
    ∙ put_unless_default _ _ u.group_id _
    ∙ put_admin_field _ u.admin fs

-- A block behind another one.
put_fields-append : (w v : List ℕ) (fs : List Field) → put_fields (w ++ v) fs ≡ w ++ put_fields v fs
put_fields-append w v fs =
    put_fields-bytes (w ++ v) fs
    ∙ append_assoc w v _
    ∙ ap (λ x. w ++ x) (sym (put_fields-bytes v fs))

user_action_lem :
    (sec : List ℕ) (action : ℕ) (u : User)
    → user_action sec action (some u)
      ≡ put_fields [] (tag_field action ∷ user_fields u (nonempty isc_spb_dbname sec []))
unfolding put_fields put_field writer_from_tag put_tag put_bytes
user_action_lem sec action u =
    let fs = nonempty isc_spb_dbname sec [] in
    put_security_db (action ∷ get_spb u) sec
    ∙ put_fields-append (action ∷ []) (get_spb u) fs
    ∙ ap (λ x. action ∷ x) (sym (put_user_fields u fs))
    ∙ sym (put_fields-append (action ∷ []) [] (user_fields u fs))

pub add_user_lem :
    (sec : List ℕ) (u : User) → add_user sec u ≡ put_fields [] (request (ask_add_user sec u))
unfolding put_fields put_field writer_from_tag put_tag put_string add_user
add_user_lem sec u = user_action_lem sec isc_action_svc_add_user u

pub modify_user_lem :
    (sec : List ℕ) (u : User) → modify_user sec u ≡ put_fields [] (request (ask_modify_user sec u))
unfolding put_fields put_field writer_from_tag put_tag put_string modify_user
modify_user_lem sec u = user_action_lem sec isc_action_svc_modify_user u

pub delete_user_lem :
    (sec : List ℕ) (u : User)
    → (name : List ℕ) × (u.username ≡ some name)
    → delete_user sec u ≡ some (put_fields [] (request (ask_delete_user sec u)))
unfolding put_fields put_field writer_from_tag put_tag put_string delete_user
delete_user_lem sec u (name, e) =
    rw e (
      ap some (user_action_lem sec isc_action_svc_delete_user (new_user (with_username name ∷ []))))

pub display_users_lem : (sec : List ℕ) → display_users sec ≡ put_fields [] (request (ask_users sec))
unfolding put_fields put_field writer_from_tag put_tag put_string display_users
display_users_lem [] = refl
display_users_lem (c ∷ cs) = refl

pub set_admin_role_mapping_lem :
    (sec : List ℕ) → set_admin_role_mapping sec ≡ put_fields [] (request (ask_set_mapping sec))
unfolding put_fields put_field writer_from_tag put_tag put_string set_admin_role_mapping
set_admin_role_mapping_lem [] = refl
set_admin_role_mapping_lem (c ∷ cs) = refl

pub drop_admin_role_mapping_lem :
    (sec : List ℕ) → drop_admin_role_mapping sec ≡ put_fields [] (request (ask_drop_mapping sec))
unfolding put_fields put_field writer_from_tag put_tag put_string drop_admin_role_mapping
drop_admin_role_mapping_lem [] = refl
drop_admin_role_mapping_lem (c ∷ cs) = refl
