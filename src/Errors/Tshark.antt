-- ===== src/Errors/Tshark.antt =====
-- The error variables of pkg/sidecars/tshark/errors.go, without the leading `Err`.

pub data TsharkCode : Type 0 where
  creating_tshark_collector_instance setting_tshark_collector_image : TsharkCode
  setting_tshark_collector_memory adding_tshark_collector_volume : TsharkCode
  setting_tshark_collector_env adding_tshark_collector_capability : TsharkCode
  committing_tshark_collector_instance tshark_collector_not_initialized : TsharkCode
  tshark_collector_invalid_volume_size : TsharkCode
  tshark_collector_s3_region_or_bucket_empty setting_tshark_collector_cpu : TsharkCode
