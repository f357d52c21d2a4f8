-- ===== src/Errors/Minio.antt =====
-- The error variables of pkg/minio/errors.go, without the leading `Err`.

pub data MinioCode : Type 0 where
  minio_failed_to_start minio_failed_to_be_ready : MinioCode
  minio_failed_to_create_or_update_service minio_failed_to_be_ready_service : MinioCode
  minio_failed_to_create_pvc minio_failed_to_create_deployment : MinioCode
  minio_failed_to_get_deployment minio_failed_to_update_deployment : MinioCode
  minio_failed_to_get_service minio_failed_to_get_endpoint : MinioCode
  minio_failed_to_initialize_client minio_failed_to_create_bucket : MinioCode
  minio_failed_to_upload_data minio_failed_to_get_presigned_url : MinioCode
  minio_failed_to_update_service minio_failed_to_find_file_before_deletion : MinioCode
  minio_failed_to_delete_file minio_failed_to_get_minio_endpoint : MinioCode
  minio_failed_to_generate_presigned_url minio_failed_to_create_service : MinioCode
  minio_failed_to_check_bucket minio_load_balancer_ip_not_available : MinioCode
  minio_failed_to_get_nodes minio_no_nodes_found minio_timeout_waiting_for_ready : MinioCode
  minio_node_port_not_set minio_external_ips_not_set : MinioCode
  minio_timeout_waiting_for_service_ready minio_failed_to_connect : MinioCode
  minio_failed_to_parse_storage_size minio_failed_to_list_persistent_volumes : MinioCode
  minio_failed_to_create_persistent_volume : MinioCode
  minio_failed_to_create_persistent_volume_claim minio_client_not_initialized : MinioCode
  minio_not_initialized : MinioCode
