-- ===== src/Errors/Netshaper.antt =====
-- The error variables of pkg/sidecars/netshaper/errors.go, without the leading `Err`.

pub data NetshaperCode : Type 0 where
  bit_twister_failed_to_start setting_bit_twister_image adding_bit_twister_port : NetshaperCode
  committing_bit_twister_instance setting_bit_twister_env : NetshaperCode
  creating_bit_twister_instance setting_bit_twister_privileged : NetshaperCode
  adding_bit_twister_capability adding_bit_twister_sidecar enabling_bit_twister : NetshaperCode
  setting_bandwidth_limit_not_allowed_bit_twister : NetshaperCode
  setting_latency_jitter_not_allowed_bit_twister : NetshaperCode
  setting_packet_loss_not_allowed_bit_twister adding_to_proxy : NetshaperCode
  stopping_bandwidth_limit bit_twister_not_initialized stopping_latency_jitter : NetshaperCode
  stopping_packet_loss getting_service_status stopping_service : NetshaperCode
