-- ===== src/Protocol/ErrorCode.antt =====
-- src/include/error_code.h: the return values, as 32-bit patterns of an `int`.
use librtaio.Base.{ℕ}

pub data ErrorCode : Type 0 where
  err_ok err_false err_unknown_error err_windows_min_error err_windows_max_error : ErrorCode
  err_encode_erroe err_decode_erroe err_check_crc_error err_unexpectied_method : ErrorCode
  err_wrong_password err_user_not_exist err_user_full err_user_already_exist err_batch_end :
      ErrorCode
  err_invalid_handle err_invalid_parameter err_invalid_point_type err_send_packet_error : ErrorCode
  err_recv_packet_error err_access_is_denied err_another_sdk_is_running : ErrorCode
  err_point_already_existed err_table_already_existed err_point_not_existed : ErrorCode
  err_table_not_existed err_no_free_table_pos err_no_free_point_pos err_sync_data2file_error :
      ErrorCode
  err_ipc_access_exception err_point_upto_full err_disabled_file_name err_load_mem_file_error :
      ErrorCode
  err_out_of_memory err_big_job_not_done err_snapshot_shuttdown err_invalid_ipc_position : ErrorCode
  err_wrong_ipc_position err_invalid_timestamp err_invalid_position_form_point_id : ErrorCode
  err_invalid_page err_page_is_empty err_unsupport_data_type err_arv_page_nota_ready : ErrorCode
  err_arvex_page_not_ready err_invalid_arv_page_allocate err_invalid_arvex_page_allocate : ErrorCode
  err_cant_load_snapshot err_cant_load_base err_cant_load_historian err_file_not_opened : ErrorCode
  err_map_is_not_ready err_archive_info_not_match err_file_is_full : ErrorCode
  err_archive_file_is_too_small err_archive_file_has_registered err_archive_file_not_registered :
      ErrorCode
  err_active_archivez_file_forbid_opt err_no_archive_file err_cant_shift_to_active_archive :
      ErrorCode
  err_need_more_writable_archive_file err_invalid_data_type err_index_not_ready : ErrorCode
  err_no_active_page_for_allocator err_invalid_index_node err_index_node_not_match : ErrorCode
  err_data_not_found err_update_remove_sanpshot_denied : ErrorCode

unfoldable pub error_value : ErrorCode → ℕ
error_value err_ok = 0x00000000
error_value err_false = 0xFFFFFFFE
error_value err_unknown_error = 0xFFFFFFFF
error_value err_windows_min_error = 0xFFF00000
error_value err_windows_max_error = 0xFFFF0000
error_value err_encode_erroe = 0xFFFF0001
error_value err_decode_erroe = 0xFFFF0002
error_value err_check_crc_error = 0xFFFF0003
error_value err_unexpectied_method = 0xFFFF0004
error_value err_wrong_password = 0xFFF00005
error_value err_user_not_exist = 0xFFF00006
error_value err_user_full = 0xFFF00007
error_value err_user_already_exist = 0xFFF00008
error_value err_batch_end = 0xFFF00009
error_value err_invalid_handle = 0xFFFF0010
error_value err_invalid_parameter = 0xFFFF0011
error_value err_invalid_point_type = 0xFFFF0012
error_value err_send_packet_error = 0xFFFF0013
error_value err_recv_packet_error = 0xFFFF0014
error_value err_access_is_denied = 0xFFFF0015
error_value err_another_sdk_is_running = 0xFFFF0016
error_value err_point_already_existed = 0xFFFF0020
error_value err_table_already_existed = 0xFFFF0021
error_value err_point_not_existed = 0xFFFF0022
error_value err_table_not_existed = 0xFFFF0023
error_value err_no_free_table_pos = 0xFFFF0024
error_value err_no_free_point_pos = 0xFFFF0025
error_value err_sync_data2file_error = 0xFFFF0026
error_value err_ipc_access_exception = 0xFFFF0027
error_value err_point_upto_full = 0xFFFF0028
error_value err_disabled_file_name = 0xFFFF0029
error_value err_load_mem_file_error = 0xFFFF002A
error_value err_out_of_memory = 0xFFFF002B
error_value err_big_job_not_done = 0xFFFF002C
error_value err_snapshot_shuttdown = 0xFFFF002D
error_value err_invalid_ipc_position = 0xFFFF002F
error_value err_wrong_ipc_position = 0xFFFF0030
error_value err_invalid_timestamp = 0xFFFF0031
error_value err_invalid_position_form_point_id = 0xFFFF0032
error_value err_invalid_page = 0xFFFF0033
error_value err_page_is_empty = 0xFFFF0034
error_value err_unsupport_data_type = 0xFFFF0035
error_value err_arv_page_nota_ready = 0xFFFF0036
error_value err_arvex_page_not_ready = 0xFFFF0037
error_value err_invalid_arv_page_allocate = 0xFFFF0038
error_value err_invalid_arvex_page_allocate = 0xFFFF0039
error_value err_cant_load_snapshot = 0xFFFF0040
error_value err_cant_load_base = 0xFFFF0041
error_value err_cant_load_historian = 0xFFFF0042
error_value err_file_not_opened = 0xFFFF0051
error_value err_map_is_not_ready = 0xFFFF0052
error_value err_archive_info_not_match = 0xFFFF0053
error_value err_file_is_full = 0xFFFF0054
error_value err_archive_file_is_too_small = 0xFFFF0055
error_value err_archive_file_has_registered = 0xFFFF0056
error_value err_archive_file_not_registered = 0xFFFF0057
error_value err_active_archivez_file_forbid_opt = 0xFFFF0058
error_value err_no_archive_file = 0xFFFF0059
error_value err_cant_shift_to_active_archive = 0xFFFF005A
error_value err_need_more_writable_archive_file = 0xFFFF005B
error_value err_invalid_data_type = 0xFFFF005C
error_value err_index_not_ready = 0xFFFF005D
error_value err_no_active_page_for_allocator = 0xFFFF005E
error_value err_invalid_index_node = 0xFFFF005F
error_value err_index_node_not_match = 0xFFFF0060
error_value err_data_not_found = 0xFFFF0061
error_value err_update_remove_sanpshot_denied = 0xFFFF0062
