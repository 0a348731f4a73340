-- ===== src/Services/Replies.antt =====
-- The loops that read what a service streamed: `GetUsers` of user_manager.go, behind the channel,
-- `GetLimboTransactions` of maintenance_manager.go and `GetSvrDbInfo` of service_manager.go. No
-- result is a panic or spent fuel; each pass moves the cursor by one byte at least.
pub mod Safety
pub mod Users
use firebirdsql_go.Base.{
  ℕ, zero, suc, ◌+◌, ℤ, pos, negsuc, Bool, true, false, not, ◌&&◌, ◌||◌, Option, none, some, List,
  [], ◌∷◌, ◌++◌, length, ◌==◌, if◌then◌else◌, ◌>>=◌,
}
use firebirdsql_go.Xpb.{
  XpbReader, Read, new_reader, next, skip_within, get_int32, get_int64, get_string,
}
use firebirdsql_go.Services.Backup.{is_positive}
use firebirdsql_go.Services.Info.{Info, value, error, reader, field_before_user, get_service_info}
use firebirdsql_go.Services.Info.Stream.{buffer_len, wait_buffer, waiting, failed, finished}
use firebirdsql_go.Services.Users.{
  User, new_user, with_username, with_first_name, with_middle_name, with_last_name, with_user_id,
  with_group_id,
}
use firebirdsql_go.Services.Consts.{
  isc_spb_single_tra_id, isc_spb_multi_tra_id, isc_spb_single_tra_id_64, isc_spb_multi_tra_id_64,
  isc_spb_tra_id, isc_spb_tra_id_64, isc_spb_tra_state, isc_spb_tra_advise, isc_spb_tra_host_site,
  isc_spb_tra_remote_site, isc_spb_tra_db_path, isc_spb_num_att, isc_spb_num_db, isc_spb_dbname,
  isc_info_flag_end, isc_info_svc_svr_db_info, isc_spb_sec_username, isc_spb_sec_firstname,
  isc_spb_sec_middlename, isc_spb_sec_lastname, isc_spb_sec_userid, isc_spb_sec_groupid,
  isc_spb_sec_admin,
}

-- A read whose value goes on through a function.
abbrev pub mapped : {A B : Type 0} → (A → B) → Read A → Read B
mapped f m = m >>= λ (r, a). some (r, f a)

-- A pass of a loop goes on, or leaves the loop.
pub data Turn (S : Type 0) : Type 0 where
  go : S → Turn S
  leave : S → Turn S

-- The loop over the tags; `step` is its body behind `Next`.
unfoldable pub loop :
    {S : Type 0} → (ℕ → S → XpbReader → Read (Turn S)) → ℕ → S → XpbReader → Read S
loop step zero s r = none
loop step (suc fuel) s r = next r >>= λ (q, o). elim o [
  | none ↦ some (q, s)
  | some tag ↦
      (step tag s q >>= λ (p, t). elim t [ go u ↦ loop step fuel u p | leave u ↦ some (p, u) ])
]

-- Go's `v, err := …; if err := srb.Err()`.
abbrev pub unless_failed : {S A : Type 0} → (S → Info A) → Read S → Option (Info A)
unless_failed f m = m >>= λ (r, s). some (elim r.err [ some e ↦ error (reader e) | none ↦ f s ])

-- The switch of `GetLimboTransactions`. At the end of a buffer a `Skip` by eight bytes does not wrap:
-- no slice has 2 ^ 63 - 8 bytes.
unfoldable pub limbo_step : ℕ → List ℤ → XpbReader → Read (Turn (List ℤ))
limbo_step tag tids r =
    if tag == isc_spb_single_tra_id || tag == isc_spb_multi_tra_id
    then mapped (λ v. go (tids ++ v ∷ [])) (get_int32 r)
    else if tag == isc_spb_single_tra_id_64 || tag == isc_spb_multi_tra_id_64
    then mapped (λ v. go (tids ++ v ∷ [])) (get_int64 r)
    else if tag == isc_spb_tra_id
    then some (skip_within r (pos 4), go tids)
    else if tag == isc_spb_tra_id_64
    then some (skip_within r (pos 8), go tids)
    else if tag == isc_spb_tra_state || tag == isc_spb_tra_advise
    then some (skip_within r (pos 1), go tids)
    else if tag == isc_spb_tra_host_site
        || tag == isc_spb_tra_remote_site
        || tag == isc_spb_tra_db_path
    then mapped (λ v. go tids) (get_string r)
    else some (r, go tids)

unfoldable pub parse_limbo : List ℕ → Option (Info (List ℤ))
unfolding loop limbo_step
parse_limbo acc = unless_failed value (loop limbo_step (length acc + 1) [] (new_reader acc))

-- The users so far, the one whose fields are being read, and the tag of a field that came before one.
pub record Listing : Type 0 where
  pub users : List User
  pub user : Option User
  pub early : Option ℕ

abbrev pub start_user : Listing → List ℕ → Listing
start_user l name = record l {
  users = elim l.user [ none ↦ l.users | some u ↦ l.users ++ u ∷ [] ];
  user = some (new_user (with_username name ∷ []));
}

abbrev pub set_user : Listing → User → Listing
set_user l u = record l { user = some u }

-- The switch behind the test of `user` for nil.
unfoldable pub user_field : ℕ → Listing → User → XpbReader → Read (Turn Listing)
user_field tag l u r =
    if tag == isc_spb_sec_firstname
    then mapped (λ s. go (set_user l (with_first_name s u))) (get_string r)
    else if tag == isc_spb_sec_middlename
    then mapped (λ s. go (set_user l (with_middle_name s u))) (get_string r)
    else if tag == isc_spb_sec_lastname
    then mapped (λ s. go (set_user l (with_last_name s u))) (get_string r)
    else if tag == isc_spb_sec_userid
    then mapped (λ n. go (set_user l (with_user_id n u))) (get_int32 r)
    else if tag == isc_spb_sec_groupid
    then mapped (λ n. go (set_user l (with_group_id n u))) (get_int32 r)
    else if tag == isc_spb_sec_admin
    then mapped (λ n. go (set_user l (record u { admin = some (is_positive n) }))) (get_int32 r)
    else some (r, go l)

unfoldable pub user_step : ℕ → Listing → XpbReader → Read (Turn Listing)
unfolding user_field
user_step tag l r =
    if tag == isc_spb_sec_username
    then mapped (λ name. go (start_user l name)) (get_string r)
    else elim l.user [
      | none ↦ some (r, leave (record l { early = some tag }))
      | some u ↦ user_field tag l u r
    ]

abbrev pub no_users : Listing
no_users = record { users = []; user = none; early = none }

-- The users, with the one that is still open.
abbrev pub all_users : Listing → List User
all_users l = elim l.user [ none ↦ l.users | some u ↦ l.users ++ u ∷ [] ]

unfoldable pub parse_users : List ℕ → Option (Info (List User))
unfolding loop user_step
parse_users acc = loop user_step (length acc + 1) no_users (new_reader acc) >>= λ (r, l).
    some (elim l.early [
      | some tag ↦ error (field_before_user tag)
      | none ↦ elim r.err [ some e ↦ error (reader e) | none ↦ value (all_users l) ]
    ])

abbrev pub concat : List (List ℕ) → List ℕ
concat [] = []
concat (c ∷ cs) = c ++ concat cs

-- `GetUsers` behind its request: it takes the whole stream before it parses. No result while the
-- server is still to answer.
unfoldable pub get_users : List (Option (List ℕ)) → Option (Info (List User))
unfolding wait_buffer parse_users
get_users rs =
    let (chunks, s) = wait_buffer rs buffer_len in
    elim s [ waiting ↦ none | failed e ↦ some (error e) | finished ↦ parse_users (concat chunks) ]

-- `SrvDbInfo`.
pub record SrvDbInfo : Type 0 where
  pub attachments_count : ℤ
  pub database_count : ℤ
  pub databases : List (List ℕ)

unfoldable pub db_info_step : ℕ → SrvDbInfo → XpbReader → Read (Turn SrvDbInfo)
db_info_step tag i r =
    if tag == isc_info_flag_end
    then some (r, leave i)
    else if tag == isc_spb_num_att
    then mapped (λ n. go (record i { attachments_count = n })) (get_int32 r)
    else if tag == isc_spb_num_db
    then mapped (λ n. go (record i { database_count = n })) (get_int32 r)
    else if tag == isc_spb_dbname
    then mapped (λ s. go (record i { databases = i.databases ++ s ∷ [] })) (get_string r)
    else some (r, go i)

unfoldable pub read_db_info : List ℕ → Option (Info SrvDbInfo)
unfolding loop db_info_step
read_db_info buf = unless_failed value (
    loop db_info_step (length buf + 1)
      (record { attachments_count = pos 0; database_count = pos 0; databases = [] })
      (new_reader buf))

-- `GetSvrDbInfo`, on its response.
unfoldable pub get_svr_db_info : Option (List ℕ) → Option (Info SrvDbInfo)
unfolding read_db_info get_service_info
get_svr_db_info response = elim (get_service_info response isc_info_svc_svr_db_info) [
  | error e ↦ some (error e)
  | value buf ↦ read_db_info buf
]
