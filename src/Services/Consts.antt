-- ===== src/Services/Consts.antt =====
-- consts.go: the tags, actions and bits of the Services API.
use firebirdsql_go.Base.{ℕ}

abbrev pub isc_info_end : ℕ
isc_info_end = 1

abbrev pub isc_info_truncated : ℕ
isc_info_truncated = 2

abbrev pub isc_info_flag_end : ℕ
isc_info_flag_end = 127

abbrev pub isc_info_svc_svr_db_info : ℕ
isc_info_svc_svr_db_info = 50

abbrev pub isc_info_svc_line : ℕ
isc_info_svc_line = 62

abbrev pub isc_info_svc_to_eof : ℕ
isc_info_svc_to_eof = 63

abbrev pub isc_info_svc_timeout : ℕ
isc_info_svc_timeout = 64

abbrev pub isc_spb_command_line : ℕ
isc_spb_command_line = 105

abbrev pub isc_spb_dbname : ℕ
isc_spb_dbname = 106

abbrev pub isc_spb_verbose : ℕ
isc_spb_verbose = 107

abbrev pub isc_spb_options : ℕ
isc_spb_options = 108

abbrev pub isc_spb_sec_userid : ℕ
isc_spb_sec_userid = 5

abbrev pub isc_spb_sec_groupid : ℕ
isc_spb_sec_groupid = 6

abbrev pub isc_spb_sec_username : ℕ
isc_spb_sec_username = 7

abbrev pub isc_spb_sec_password : ℕ
isc_spb_sec_password = 8

abbrev pub isc_spb_sec_firstname : ℕ
isc_spb_sec_firstname = 10

abbrev pub isc_spb_sec_middlename : ℕ
isc_spb_sec_middlename = 11

abbrev pub isc_spb_sec_lastname : ℕ
isc_spb_sec_lastname = 12

abbrev pub isc_spb_sec_admin : ℕ
isc_spb_sec_admin = 13

abbrev pub isc_spb_bkp_file : ℕ
isc_spb_bkp_file = 5

abbrev pub isc_spb_bkp_ignore_checksums : ℕ
isc_spb_bkp_ignore_checksums = 1

abbrev pub isc_spb_bkp_ignore_limbo : ℕ
isc_spb_bkp_ignore_limbo = 2

abbrev pub isc_spb_bkp_metadata_only : ℕ
isc_spb_bkp_metadata_only = 4

abbrev pub isc_spb_bkp_no_garbage_collect : ℕ
isc_spb_bkp_no_garbage_collect = 8

abbrev pub isc_spb_bkp_non_transportable : ℕ
isc_spb_bkp_non_transportable = 32

abbrev pub isc_spb_bkp_convert : ℕ
isc_spb_bkp_convert = 64

abbrev pub isc_spb_bkp_expand : ℕ
isc_spb_bkp_expand = 8

abbrev pub isc_spb_bkp_parallel_workers : ℕ
isc_spb_bkp_parallel_workers = 21

abbrev pub isc_spb_bkp_zip : ℕ
isc_spb_bkp_zip = 65536

abbrev pub isc_spb_res_buffers : ℕ
isc_spb_res_buffers = 9

abbrev pub isc_spb_res_page_size : ℕ
isc_spb_res_page_size = 10

abbrev pub isc_spb_res_parallel_workers : ℕ
isc_spb_res_parallel_workers = 21

abbrev pub isc_spb_res_deactivate_idx : ℕ
isc_spb_res_deactivate_idx = 256

abbrev pub isc_spb_res_no_shadow : ℕ
isc_spb_res_no_shadow = 512

abbrev pub isc_spb_res_no_validity : ℕ
isc_spb_res_no_validity = 1024

abbrev pub isc_spb_res_one_at_a_time : ℕ
isc_spb_res_one_at_a_time = 2048

abbrev pub isc_spb_res_replace : ℕ
isc_spb_res_replace = 4096

abbrev pub isc_spb_res_create : ℕ
isc_spb_res_create = 8192

abbrev pub isc_spb_res_use_all_space : ℕ
isc_spb_res_use_all_space = 16384

abbrev pub isc_spb_nbk_level : ℕ
isc_spb_nbk_level = 5

abbrev pub isc_spb_nbk_file : ℕ
isc_spb_nbk_file = 6

abbrev pub isc_spb_nbk_guid : ℕ
isc_spb_nbk_guid = 8

abbrev pub isc_spb_nbk_no_triggers : ℕ
isc_spb_nbk_no_triggers = 1

abbrev pub isc_spb_nbk_inplace : ℕ
isc_spb_nbk_inplace = 2

abbrev pub isc_spb_nbk_sequence : ℕ
isc_spb_nbk_sequence = 4

abbrev pub isc_spb_prp_page_buffers : ℕ
isc_spb_prp_page_buffers = 5

abbrev pub isc_spb_prp_sweep_interval : ℕ
isc_spb_prp_sweep_interval = 6

abbrev pub isc_spb_prp_shutdown_db : ℕ
isc_spb_prp_shutdown_db = 7

abbrev pub isc_spb_prp_deny_new_attachments : ℕ
isc_spb_prp_deny_new_attachments = 9

abbrev pub isc_spb_prp_deny_new_transactions : ℕ
isc_spb_prp_deny_new_transactions = 10

abbrev pub isc_spb_prp_reserve_space : ℕ
isc_spb_prp_reserve_space = 11

abbrev pub isc_spb_prp_write_mode : ℕ
isc_spb_prp_write_mode = 12

abbrev pub isc_spb_prp_access_mode : ℕ
isc_spb_prp_access_mode = 13

abbrev pub isc_spb_prp_set_sql_dialect : ℕ
isc_spb_prp_set_sql_dialect = 14

abbrev pub isc_spb_prp_activate : ℕ
isc_spb_prp_activate = 256

abbrev pub isc_spb_prp_db_online : ℕ
isc_spb_prp_db_online = 512

abbrev pub isc_spb_prp_nolinger : ℕ
isc_spb_prp_nolinger = 1024

abbrev pub isc_spb_prp_force_shutdown : ℕ
isc_spb_prp_force_shutdown = 41

abbrev pub isc_spb_prp_attachments_shutdown : ℕ
isc_spb_prp_attachments_shutdown = 42

abbrev pub isc_spb_prp_transactions_shutdown : ℕ
isc_spb_prp_transactions_shutdown = 43

abbrev pub isc_spb_prp_shutdown_mode : ℕ
isc_spb_prp_shutdown_mode = 44

abbrev pub isc_spb_prp_online_mode : ℕ
isc_spb_prp_online_mode = 45

abbrev pub isc_spb_prp_replica_mode : ℕ
isc_spb_prp_replica_mode = 46

abbrev pub isc_spb_prp_sm_normal : ℕ
isc_spb_prp_sm_normal = 0

abbrev pub isc_spb_prp_sm_multi : ℕ
isc_spb_prp_sm_multi = 1

abbrev pub isc_spb_prp_sm_single : ℕ
isc_spb_prp_sm_single = 2

abbrev pub isc_spb_prp_sm_full : ℕ
isc_spb_prp_sm_full = 3

abbrev pub isc_spb_prp_rm_none : ℕ
isc_spb_prp_rm_none = 0

abbrev pub isc_spb_prp_rm_readonly : ℕ
isc_spb_prp_rm_readonly = 1

abbrev pub isc_spb_prp_rm_readwrite : ℕ
isc_spb_prp_rm_readwrite = 2

abbrev pub isc_spb_rpr_commit_trans : ℕ
isc_spb_rpr_commit_trans = 15

abbrev pub isc_spb_rpr_rollback_trans : ℕ
isc_spb_rpr_rollback_trans = 34

abbrev pub isc_spb_tra_id : ℕ
isc_spb_tra_id = 18

abbrev pub isc_spb_single_tra_id : ℕ
isc_spb_single_tra_id = 19

abbrev pub isc_spb_multi_tra_id : ℕ
isc_spb_multi_tra_id = 20

abbrev pub isc_spb_tra_state : ℕ
isc_spb_tra_state = 21

abbrev pub isc_spb_tra_host_site : ℕ
isc_spb_tra_host_site = 26

abbrev pub isc_spb_tra_remote_site : ℕ
isc_spb_tra_remote_site = 27

abbrev pub isc_spb_tra_db_path : ℕ
isc_spb_tra_db_path = 28

abbrev pub isc_spb_tra_advise : ℕ
isc_spb_tra_advise = 29

abbrev pub isc_spb_tra_id_64 : ℕ
isc_spb_tra_id_64 = 46

abbrev pub isc_spb_single_tra_id_64 : ℕ
isc_spb_single_tra_id_64 = 47

abbrev pub isc_spb_multi_tra_id_64 : ℕ
isc_spb_multi_tra_id_64 = 48

abbrev pub isc_spb_rpr_commit_trans_64 : ℕ
isc_spb_rpr_commit_trans_64 = 49

abbrev pub isc_spb_rpr_rollback_trans_64 : ℕ
isc_spb_rpr_rollback_trans_64 = 50

abbrev pub isc_spb_prp_res_use_full : ℕ
isc_spb_prp_res_use_full = 35

abbrev pub isc_spb_prp_res : ℕ
isc_spb_prp_res = 36

abbrev pub isc_spb_prp_wm_async : ℕ
isc_spb_prp_wm_async = 37

abbrev pub isc_spb_prp_wm_sync : ℕ
isc_spb_prp_wm_sync = 38

abbrev pub isc_spb_prp_am_readonly : ℕ
isc_spb_prp_am_readonly = 39

abbrev pub isc_spb_prp_am_readwrite : ℕ
isc_spb_prp_am_readwrite = 40

abbrev pub isc_spb_trc_id : ℕ
isc_spb_trc_id = 1

abbrev pub isc_spb_trc_name : ℕ
isc_spb_trc_name = 2

abbrev pub isc_spb_trc_cfg : ℕ
isc_spb_trc_cfg = 3

abbrev pub isc_spb_num_att : ℕ
isc_spb_num_att = 5

abbrev pub isc_spb_num_db : ℕ
isc_spb_num_db = 6

abbrev pub isc_spb_sts_data_pages : ℕ
isc_spb_sts_data_pages = 1

abbrev pub isc_spb_sts_hdr_pages : ℕ
isc_spb_sts_hdr_pages = 4

abbrev pub isc_spb_sts_idx_pages : ℕ
isc_spb_sts_idx_pages = 8

abbrev pub isc_spb_sts_sys_relations : ℕ
isc_spb_sts_sys_relations = 16

abbrev pub isc_spb_sts_record_versions : ℕ
isc_spb_sts_record_versions = 32

abbrev pub isc_spb_sts_table : ℕ
isc_spb_sts_table = 64

abbrev pub isc_spb_rpr_validate_db : ℕ
isc_spb_rpr_validate_db = 1

abbrev pub isc_spb_rpr_sweep_db : ℕ
isc_spb_rpr_sweep_db = 2

abbrev pub isc_spb_rpr_mend_db : ℕ
isc_spb_rpr_mend_db = 4

abbrev pub isc_spb_rpr_list_limbo_trans : ℕ
isc_spb_rpr_list_limbo_trans = 8

abbrev pub isc_spb_rpr_kill_shadows : ℕ
isc_spb_rpr_kill_shadows = 64

abbrev pub isc_action_svc_backup : ℕ
isc_action_svc_backup = 1

abbrev pub isc_action_svc_restore : ℕ
isc_action_svc_restore = 2

abbrev pub isc_action_svc_repair : ℕ
isc_action_svc_repair = 3

abbrev pub isc_action_svc_add_user : ℕ
isc_action_svc_add_user = 4

abbrev pub isc_action_svc_delete_user : ℕ
isc_action_svc_delete_user = 5

abbrev pub isc_action_svc_modify_user : ℕ
isc_action_svc_modify_user = 6

abbrev pub isc_action_svc_properties : ℕ
isc_action_svc_properties = 8

abbrev pub isc_action_svc_db_stats : ℕ
isc_action_svc_db_stats = 11

abbrev pub isc_action_svc_nbak : ℕ
isc_action_svc_nbak = 20

abbrev pub isc_action_svc_nrest : ℕ
isc_action_svc_nrest = 21

abbrev pub isc_action_svc_trace_start : ℕ
isc_action_svc_trace_start = 22

abbrev pub isc_action_svc_trace_stop : ℕ
isc_action_svc_trace_stop = 23

abbrev pub isc_action_svc_trace_suspend : ℕ
isc_action_svc_trace_suspend = 24

abbrev pub isc_action_svc_trace_resume : ℕ
isc_action_svc_trace_resume = 25

abbrev pub isc_action_svc_set_mapping : ℕ
isc_action_svc_set_mapping = 27

abbrev pub isc_action_svc_drop_mapping : ℕ
isc_action_svc_drop_mapping = 28

abbrev pub isc_action_svc_display_user_adm : ℕ
isc_action_svc_display_user_adm = 29

abbrev pub isc_action_svc_nfix : ℕ
isc_action_svc_nfix = 31
