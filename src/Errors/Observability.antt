-- ===== src/Errors/Observability.antt =====
-- The error variables of pkg/sidecars/observability/errors.go, without the leading `Err`.

pub data ObservabilityCode : Type 0 where
  creating_otel_agent_instance setting_otel_agent_image adding_otel_agent_port : ObservabilityCode
  committing_otel_agent_instance setting_otel_agent_env setting_otel_agent_cpu : ObservabilityCode
  setting_otel_agent_memory marshaling_yaml adding_otel_agent_config_file : ObservabilityCode
  setting_otel_agent_command obsy_instance_not_initialized setting_not_allowed : ObservabilityCode
  adding_volume : ObservabilityCode
