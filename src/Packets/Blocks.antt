-- ===== src/Packets/Blocks.antt =====
-- The parameter blocks of an attachment: those of `opCreate`, `opAttach` and `opServiceAttach` of
-- wireprotocol.go, with the items that `appendAuthAndTimezone`, `appendInlineBlobDPB` and
-- `appendClientInfoDPB` add.
use firebirdsql_go.Base.{
  ℕ, ◌-◌, ◌%◌, ◌||◌, ℤ, pos, Option, none, some, List, [], ◌∷◌, ◌++◌, length, drop, ltb, ltb_ℤ,
  ◌==◌, if◌then◌else◌,
}
use firebirdsql_go.Bytes.{int32_to_bytes, bint32_to_bytes}
use firebirdsql_go.Texts.{to_upper, hex_encode, itoa}
use firebirdsql_go.Packets.{WireProtocol}
use firebirdsql_go.Packets.Consts.{
  isc_dpb_client_version, isc_dpb_force_write, isc_dpb_host_name, isc_dpb_lc_ctype,
  isc_dpb_max_blob_cache_size, isc_dpb_max_inline_blob_size, isc_dpb_os_user, isc_dpb_overwrite,
  isc_dpb_page_size, isc_dpb_password, isc_dpb_process_id, isc_dpb_process_name,
  isc_dpb_session_time_zone, isc_dpb_set_db_charset, isc_dpb_specific_auth_data,
  isc_dpb_sql_dialect, isc_dpb_sql_role_name, isc_dpb_user_name, isc_dpb_utf8_filename,
  isc_dpb_version1, isc_spb_current_version, isc_spb_password, isc_spb_user_name,
  isc_spb_utf8_filename, isc_spb_version,
}

-- `{tag, byte(len(v))}, v`: the length wraps at 256.
abbrev pub clumplet : ℕ → List ℕ → List ℕ
clumplet tag v = tag ∷ length v % 256 ∷ v

-- `bytes.Join(parts, nil)`.
abbrev pub join_bytes : List (List ℕ) → List ℕ
join_bytes [] = []
join_bytes (part ∷ parts) = part ++ join_bytes parts

-- `byte(len(v))`.
abbrev pub byte_len : List ℕ → ℕ
byte_len v = length v % 256

abbrev pub protocol_version19 : ℤ
protocol_version19 = pos 19

abbrev pub append_auth : Option (List ℕ) → List ℕ → List ℕ
append_auth none dpb = dpb
append_auth (some data_bytes) dpb =
    dpb ++ clumplet isc_dpb_specific_auth_data (hex_encode data_bytes)

abbrev pub append_timezone : List ℕ → List ℕ → List ℕ
append_timezone [] dpb = dpb
append_timezone (c ∷ s) dpb = dpb ++ clumplet isc_dpb_session_time_zone (c ∷ s)

unfoldable pub append_auth_and_timezone : WireProtocol → List ℕ → List ℕ
append_auth_and_timezone p dpb = append_timezone p.timezone (append_auth p.auth_data dpb)

unfoldable pub append_inline_blob_dpb : WireProtocol → List ℕ → List ℕ
append_inline_blob_dpb p dpb =
    if ltb_ℤ p.protocol_version protocol_version19
    then dpb
    else join_bytes (
        dpb
        ∷ (isc_dpb_max_inline_blob_size ∷ 4 ∷ [])
        ∷ int32_to_bytes p.max_inline_blob_size
        ∷ (isc_dpb_max_blob_cache_size ∷ 4 ∷ [])
        ∷ int32_to_bytes p.max_blob_cache_size
        ∷ [])

-- One turn of the loop of `appendClientInfoDPB`.
abbrev pub append_info : ℕ → List ℕ → List ℕ → List ℕ
append_info tag value dpb =
    if length value == 0 || ltb 255 (length value) then dpb else dpb ++ clumplet tag value

unfoldable pub append_client_info_dpb : WireProtocol → List ℕ → List ℕ
append_client_info_dpb p dpb = append_info isc_dpb_host_name p.host_name (
    append_info isc_dpb_os_user p.os_user (append_info isc_dpb_client_version p.client_version dpb))

-- What the process knows of itself: `osext.Executable`, `os.Getpid`, `os.Getuid`, `os.Hostname` and
-- the version that the module was built with.
pub record Host : Type 0 where
  pub executable : Option (List ℕ)
  pub pid : ℤ
  pub uid : ℤ
  pub hostname : List ℕ
  pub default_client_version : List ℕ

-- The last 255 bytes of the program's path.
unfoldable pub process_name : Host → List ℕ
process_name h = elim h.executable [
  | none ↦ []
  | some name ↦ if ltb 255 (length name) then drop (length name - 255) name else name
]

abbrev pub or_default : List ℕ → List ℕ → List ℕ
or_default [] d = d
or_default (c ∷ s) d = c ∷ s

abbrev pub uid_text : ℤ → List ℕ
uid_text (pos n) = itoa (pos n)
uid_text n = []

-- Values that are not set take the process's.
unfoldable pub resolve_client : Host → WireProtocol → WireProtocol
resolve_client h p = record p {
  client_version = or_default p.client_version h.default_client_version;
  os_user = or_default p.os_user (uid_text h.uid);
  host_name = or_default p.host_name h.hostname;
}

-- What `opCreate` and `opAttach` join.
abbrev pub create_parts : List ℕ → List ℕ → List ℕ → WireProtocol → List (List ℕ)
create_parts user password role p =
    (isc_dpb_version1 ∷ [])
    ∷ (isc_dpb_set_db_charset ∷ byte_len p.charset ∷ [])
    ∷ p.charset
    ∷ (isc_dpb_lc_ctype ∷ byte_len p.charset ∷ [])
    ∷ p.charset
    ∷ (isc_dpb_user_name ∷ byte_len (to_upper user) ∷ [])
    ∷ to_upper user
    ∷ (isc_dpb_password ∷ byte_len password ∷ [])
    ∷ password
    ∷ (isc_dpb_sql_role_name ∷ byte_len role ∷ [])
    ∷ role
    ∷ (isc_dpb_sql_dialect ∷ 4 ∷ [])
    ∷ int32_to_bytes (pos 3)
    ∷ (isc_dpb_force_write ∷ 4 ∷ [])
    ∷ bint32_to_bytes (pos 1)
    ∷ (isc_dpb_overwrite ∷ 4 ∷ [])
    ∷ bint32_to_bytes (pos 1)
    ∷ (isc_dpb_page_size ∷ 4 ∷ [])
    ∷ int32_to_bytes (pos 4096)
    ∷ (isc_dpb_utf8_filename ∷ 1 ∷ 1 ∷ [])
    ∷ []

unfoldable pub create_dpb : List ℕ → List ℕ → List ℕ → WireProtocol → List ℕ
unfolding append_auth_and_timezone append_inline_blob_dpb
create_dpb user password role p =
    append_inline_blob_dpb p
      (append_auth_and_timezone p (join_bytes (create_parts user password role p)))

abbrev pub attach_parts : Host → List ℕ → List ℕ → List ℕ → WireProtocol → List (List ℕ)
attach_parts h user password role p =
    (isc_dpb_version1 ∷ [])
    ∷ (isc_dpb_sql_dialect ∷ 4 ∷ [])
    ∷ int32_to_bytes (pos 3)
    ∷ (isc_dpb_lc_ctype ∷ byte_len p.charset ∷ [])
    ∷ p.charset
    ∷ (isc_dpb_user_name ∷ byte_len (to_upper user) ∷ [])
    ∷ to_upper user
    ∷ (isc_dpb_password ∷ byte_len password ∷ [])
    ∷ password
    ∷ (isc_dpb_sql_role_name ∷ byte_len role ∷ [])
    ∷ role
    ∷ (isc_dpb_process_id ∷ 4 ∷ [])
    ∷ int32_to_bytes h.pid
    ∷ (isc_dpb_process_name ∷ byte_len (process_name h) ∷ [])
    ∷ process_name h
    ∷ (isc_dpb_utf8_filename ∷ 1 ∷ 1 ∷ [])
    ∷ []

-- `p` is the connection with its client resolved.
unfoldable pub attach_dpb : Host → List ℕ → List ℕ → List ℕ → WireProtocol → List ℕ
unfolding append_client_info_dpb append_auth_and_timezone append_inline_blob_dpb process_name
attach_dpb h user password role p = append_inline_blob_dpb p (
    append_auth_and_timezone p
      (append_client_info_dpb p (join_bytes (attach_parts h user password role p))))

-- The block of `opServiceAttach`.
unfoldable pub service_spb : WireProtocol → List ℕ
service_spb p = append_auth p.auth_data (
    join_bytes (
      (isc_spb_version ∷ isc_spb_current_version ∷ [])
      ∷ (isc_spb_user_name ∷ byte_len p.user ∷ [])
      ∷ p.user
      ∷ (isc_spb_password ∷ byte_len p.password ∷ [])
      ∷ p.password
      ∷ (isc_spb_utf8_filename ∷ 1 ∷ 1 ∷ [])
      ∷ []))
