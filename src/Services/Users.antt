-- ===== src/Services/Users.antt =====
-- user_manager.go: the requests on users and the mapping of the admin role.
use firebirdsql_go.Base.{
  ℕ, zero, suc, ℤ, pos, negsuc, Bool, true, false, not, Option, none, some, List, [], ◌∷◌,
  if◌then◌else◌,
}
use firebirdsql_go.Xpb.{writer_from_tag, put_string, put_int32, put_bytes}
use firebirdsql_go.Services.{apply_options, is_empty}
use firebirdsql_go.Services.Consts.{
  isc_action_svc_add_user, isc_action_svc_delete_user, isc_action_svc_display_user_adm,
  isc_action_svc_drop_mapping, isc_action_svc_modify_user, isc_action_svc_set_mapping,
  isc_spb_dbname, isc_spb_sec_admin, isc_spb_sec_firstname, isc_spb_sec_groupid,
  isc_spb_sec_lastname, isc_spb_sec_middlename, isc_spb_sec_password, isc_spb_sec_userid,
  isc_spb_sec_username,
}

pub record User : Type 0 where
  pub username : Option (List ℕ)
  pub password : Option (List ℕ)
  pub first_name : Option (List ℕ)
  pub middle_name : Option (List ℕ)
  pub last_name : Option (List ℕ)
  pub user_id : ℤ
  pub group_id : ℤ
  pub admin : Option Bool

abbrev pub UserOption : Type 0
UserOption = User → User

pub record UserManagerOptions : Type 0 where
  pub security_db : List ℕ

abbrev pub UserManagerOption : Type 0
UserManagerOption = UserManagerOptions → UserManagerOptions

abbrev pub with_security_db : List ℕ → UserManagerOption
with_security_db security_d_b opts = record opts { security_db = security_d_b }

abbrev get_default_user_manager_options : UserManagerOptions
get_default_user_manager_options = record { security_db = [] }

abbrev pub new_user_manager_options : List UserManagerOption → UserManagerOptions
new_user_manager_options opts = apply_options get_default_user_manager_options opts

abbrev pub with_username : List ℕ → UserOption
with_username username opts = record opts { username = some username }

abbrev pub with_password : List ℕ → UserOption
with_password password opts = record opts { password = some password }

abbrev pub with_first_name : List ℕ → UserOption
with_first_name first_name opts = record opts { first_name = some first_name }

abbrev pub with_middle_name : List ℕ → UserOption
with_middle_name middle_name opts = record opts { middle_name = some middle_name }

abbrev pub with_last_name : List ℕ → UserOption
with_last_name last_name opts = record opts { last_name = some last_name }

abbrev pub with_user_id : ℤ → UserOption
with_user_id user_id opts = record opts { user_id = user_id }

abbrev pub with_group_id : ℤ → UserOption
with_group_id group_id opts = record opts { group_id = group_id }

abbrev pub with_admin : UserOption
with_admin opts = record opts { admin = some true }

abbrev pub without_admin : UserOption
without_admin opts = record opts { admin = some false }

abbrev pub new_user : List UserOption → User
new_user opts =
    apply_options
      (record {
        username = none;
        password = none;
        first_name = none;
        middle_name = none;
        last_name = none;
        user_id = negsuc 0;
        group_id = negsuc 0;
        admin = none;
      })
      opts

-- Go's `n != -1`.
abbrev pub is_set : ℤ → Bool
is_set (pos n) = true
is_set (negsuc zero) = false
is_set (negsuc (suc n)) = true

abbrev pub put_optional : List ℕ → ℕ → Option (List ℕ) → List ℕ
put_optional spb tag none = spb
put_optional spb tag (some s) = put_string spb tag s

abbrev pub put_if_set : List ℕ → ℕ → ℤ → List ℕ
put_if_set spb tag n = if is_set n then put_int32 spb tag n else spb

abbrev pub put_admin : List ℕ → Option Bool → List ℕ
put_admin spb none = spb
put_admin spb (some true) = put_int32 spb isc_spb_sec_admin (pos 1)
put_admin spb (some false) = put_int32 spb isc_spb_sec_admin (pos 0)

unfoldable pub get_spb : User → List ℕ
get_spb u =
    let srb = put_optional [] isc_spb_sec_username u.username in
    let srb = put_optional srb isc_spb_sec_password u.password in
    let srb = put_optional srb isc_spb_sec_firstname u.first_name in
    let srb = put_optional srb isc_spb_sec_middlename u.middle_name in
    let srb = put_optional srb isc_spb_sec_lastname u.last_name in
    let srb = put_if_set srb isc_spb_sec_userid u.user_id in
    let srb = put_if_set srb isc_spb_sec_groupid u.group_id in put_admin srb u.admin

abbrev pub put_user : List ℕ → Option User → List ℕ
put_user spb none = spb
put_user spb (some user) = put_bytes spb (get_spb user)

-- `userAction` and `userActionStart` build the same block.
abbrev pub user_action : List ℕ → ℕ → Option User → List ℕ
user_action security_db action user =
    let spb = put_user (writer_from_tag action) user in
    if not (is_empty security_db) then put_string spb isc_spb_dbname security_db else spb

unfoldable pub add_user : List ℕ → User → List ℕ
add_user security_db user = user_action security_db isc_action_svc_add_user (some user)

-- No block if the code panics: it dereferences the username of the user.
unfoldable pub delete_user : List ℕ → User → Option (List ℕ)
delete_user security_db user = elim user.username [
  | none ↦ none
  | some name ↦ some (
      user_action security_db isc_action_svc_delete_user
        (some (new_user (with_username name ∷ []))))
]

unfoldable pub modify_user : List ℕ → User → List ℕ
modify_user security_db user = user_action security_db isc_action_svc_modify_user (some user)

-- The request of `GetUsers`.
unfoldable pub display_users : List ℕ → List ℕ
display_users security_db = user_action security_db isc_action_svc_display_user_adm none

abbrev admin_role_mapping_action : List ℕ → ℕ → List ℕ
admin_role_mapping_action security_db action =
    let spb = writer_from_tag action in
    if not (is_empty security_db) then put_string spb isc_spb_dbname security_db else spb

unfoldable pub set_admin_role_mapping : List ℕ → List ℕ
set_admin_role_mapping security_db =
    admin_role_mapping_action security_db isc_action_svc_set_mapping

unfoldable pub drop_admin_role_mapping : List ℕ → List ℕ
drop_admin_role_mapping security_db =
    admin_role_mapping_action security_db isc_action_svc_drop_mapping
