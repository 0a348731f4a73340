-- ===== src/Packets/Consts.antt =====
-- consts.go: the codes of the operations, the tags of the parameter blocks of an attachment, and the
-- fixed words of the event requests.
use firebirdsql_go.Base.{ℕ}

abbrev pub op_connect : ℕ
op_connect = 1

abbrev pub op_attach : ℕ
op_attach = 19

abbrev pub op_create : ℕ
op_create = 20

abbrev pub op_detach : ℕ
op_detach = 21

abbrev pub op_transaction : ℕ
op_transaction = 29

abbrev pub op_commit : ℕ
op_commit = 30

abbrev pub op_rollback : ℕ
op_rollback = 31

abbrev pub op_open_blob : ℕ
op_open_blob = 35

abbrev pub op_get_segment : ℕ
op_get_segment = 36

abbrev pub op_put_segment : ℕ
op_put_segment = 37

abbrev pub op_close_blob : ℕ
op_close_blob = 39

abbrev pub op_info_database : ℕ
op_info_database = 40

abbrev pub op_info_transaction : ℕ
op_info_transaction = 42

abbrev pub op_que_events : ℕ
op_que_events = 48

abbrev pub op_cancel_events : ℕ
op_cancel_events = 49

abbrev pub op_commit_retaining : ℕ
op_commit_retaining = 50

abbrev pub op_connect_request : ℕ
op_connect_request = 53

abbrev pub op_open_blob2 : ℕ
op_open_blob2 = 56

abbrev pub op_create_blob2 : ℕ
op_create_blob2 = 57

abbrev pub op_allocate_statement : ℕ
op_allocate_statement = 62

abbrev pub op_execute : ℕ
op_execute = 63

abbrev pub op_execute_immediate : ℕ
op_execute_immediate = 64

abbrev pub op_fetch : ℕ
op_fetch = 65

abbrev pub op_free_statement : ℕ
op_free_statement = 67

abbrev pub op_prepare_statement : ℕ
op_prepare_statement = 68

abbrev pub op_info_sql : ℕ
op_info_sql = 70

abbrev pub op_execute2 : ℕ
op_execute2 = 76

abbrev pub op_drop_database : ℕ
op_drop_database = 81

abbrev pub op_service_attach : ℕ
op_service_attach = 82

abbrev pub op_service_detach : ℕ
op_service_detach = 83

abbrev pub op_service_info : ℕ
op_service_info = 84

abbrev pub op_service_start : ℕ
op_service_start = 85

abbrev pub op_rollback_retaining : ℕ
op_rollback_retaining = 86

abbrev pub op_cancel : ℕ
op_cancel = 91

abbrev pub op_cont_auth : ℕ
op_cont_auth = 92

abbrev pub op_ping : ℕ
op_ping = 93

abbrev pub op_crypt : ℕ
op_crypt = 96

abbrev pub op_crypt_key_callback : ℕ
op_crypt_key_callback = 97

abbrev pub op_fetch_scroll : ℕ
op_fetch_scroll = 112

abbrev pub op_batch_create : ℕ
op_batch_create = 99

abbrev pub op_batch_msg : ℕ
op_batch_msg = 100

abbrev pub op_batch_exec : ℕ
op_batch_exec = 101

abbrev pub op_batch_sync : ℕ
op_batch_sync = 110

abbrev pub op_batch_rls : ℕ
op_batch_rls = 102

abbrev pub op_batch_cancel : ℕ
op_batch_cancel = 109

abbrev pub isc_dpb_version1 : ℕ
isc_dpb_version1 = 1

abbrev pub isc_dpb_page_size : ℕ
isc_dpb_page_size = 4

abbrev pub isc_dpb_force_write : ℕ
isc_dpb_force_write = 24

abbrev pub isc_dpb_user_name : ℕ
isc_dpb_user_name = 28

abbrev pub isc_dpb_password : ℕ
isc_dpb_password = 29

abbrev pub isc_dpb_lc_ctype : ℕ
isc_dpb_lc_ctype = 48

abbrev pub isc_dpb_overwrite : ℕ
isc_dpb_overwrite = 54

abbrev pub isc_dpb_sql_role_name : ℕ
isc_dpb_sql_role_name = 60

abbrev pub isc_dpb_sql_dialect : ℕ
isc_dpb_sql_dialect = 63

abbrev pub isc_dpb_set_db_charset : ℕ
isc_dpb_set_db_charset = 68

abbrev pub isc_dpb_process_id : ℕ
isc_dpb_process_id = 71

abbrev pub isc_dpb_process_name : ℕ
isc_dpb_process_name = 74

abbrev pub isc_dpb_utf8_filename : ℕ
isc_dpb_utf8_filename = 77

abbrev pub isc_dpb_client_version : ℕ
isc_dpb_client_version = 80

abbrev pub isc_dpb_host_name : ℕ
isc_dpb_host_name = 82

abbrev pub isc_dpb_os_user : ℕ
isc_dpb_os_user = 83

abbrev pub isc_dpb_specific_auth_data : ℕ
isc_dpb_specific_auth_data = 84

abbrev pub isc_dpb_session_time_zone : ℕ
isc_dpb_session_time_zone = 91

abbrev pub isc_dpb_max_blob_cache_size : ℕ
isc_dpb_max_blob_cache_size = 103

abbrev pub isc_dpb_max_inline_blob_size : ℕ
isc_dpb_max_inline_blob_size = 104

abbrev pub isc_spb_current_version : ℕ
isc_spb_current_version = 2

abbrev pub isc_spb_version : ℕ
isc_spb_version = isc_spb_current_version

abbrev pub isc_spb_user_name : ℕ
isc_spb_user_name = 28

abbrev pub isc_spb_password : ℕ
isc_spb_password = 29

abbrev pub isc_spb_utf8_filename : ℕ
isc_spb_utf8_filename = 118

abbrev pub p_req_async : ℕ
p_req_async = 1

abbrev pub partner_identification : ℕ
partner_identification = 0

abbrev pub address_of_ast_routine : ℕ
address_of_ast_routine = 0

abbrev pub argument_to_ast_routine : ℕ
argument_to_ast_routine = 0

abbrev pub isc_info_sql_stmt_type : ℕ
isc_info_sql_stmt_type = 21
