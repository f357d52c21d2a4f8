-- ===== src/Errors/Kaniko.antt =====
-- The error variables of pkg/builder/kaniko/errors.go, without the leading `Err`.

pub data KanikoCode : Type 0 where
  build_failed build_context_empty cleaning_up creating_job deleting_job : KanikoCode
  deleting_pods generating_uuid getting_container_logs getting_pod_from_job : KanikoCode
  listing_jobs listing_pods no_containers_found no_pods_found preparing_job : KanikoCode
  waiting_job_completion watching_channel_close_unexpectedly watching_job : KanikoCode
  context_cancelled mounting_dir minio_not_configured minio_deployment_failed : KanikoCode
  deleting_minio_content parsing_quantity minio_failed_to_get_deployment : KanikoCode
