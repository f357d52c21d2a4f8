-- ===== src/Sidecars/Observability.antt =====
-- obsy.go and helpers.go of pkg/sidecars/observability: the sidecar that runs the collector. Its
-- configuration is not nil, as in every Obsy that New and Clone make. yaml.Marshal is a parameter.
use knuu.Prelude.{Option, none, some, [], ◌∷◌, ◌++◌, if◌then◌else◌}
use knuu.Prelude.Text.{Text, codes, is_empty}
use knuu.Prelude.Int.{ℤ, pos}
use knuu.Errors.{observability_code}
use knuu.Errors.Observability.{
  ObservabilityCode, creating_otel_agent_instance, setting_otel_agent_image, adding_otel_agent_port,
  setting_otel_agent_cpu, setting_otel_agent_memory, committing_otel_agent_instance,
  marshaling_yaml, adding_otel_agent_config_file, setting_otel_agent_command,
  obsy_instance_not_initialized, setting_not_allowed,
}
use knuu.Action.{Action, pure, raise, gets, require, wrapping, ◌>>=◌, ◌>>◌}
use knuu.Host.{Foreign, Os, Call}
use knuu.Instance.State
use knuu.Instance.State.{is_in_state}
use knuu.Instance.World.{Ref, World, SidecarManager, call}
use knuu.Instance.Access.{self, deref}
use knuu.Instance.Build
use knuu.Instance.Network
use knuu.Instance.Resources
use knuu.Instance.Storage
use knuu.Instance.Naming.{clone_with_name}
use knuu.Sidecars.{on_world, edit_struct, new_sidecar}
use knuu.Sidecars.Schema.{OtelConfig}
use knuu.Sidecars.Otel.{ObsyConfig, otel_config}

pub record Obsy : Type 0 where
  pub own_instance : Option Ref
  pub obsy_config : ObsyConfig
  pub image : Text

abbrev pub default_otel_collector_version : Text
default_otel_collector_version = codes "0.83.0"

unfoldable pub new_obsy : Obsy
new_obsy = record {
  own_instance = none;
  obsy_config = record {
    otel_collector_version = default_otel_collector_version;
    prometheus_endpoint_port = pos 0;
    prometheus_endpoint_job_name = [];
    prometheus_endpoint_scrape_interval = [];
    jaeger_grpc_port = pos 0;
    jaeger_thrift_compact_port = pos 0;
    jaeger_thrift_http_port = pos 0;
    jaeger_endpoint = [];
    otlp_port = pos 0;
    otlp_endpoint = [];
    otlp_username = [];
    otlp_password = [];
    prometheus_exporter_endpoint = [];
    prometheus_remote_write_exporter_endpoint = [];
    logging_exporter_log_level = [];
  };
  image = codes "otel/opentelemetry-collector-contrib:" ++ default_otel_collector_version;
}

abbrev pub otel_agent_name : Text → Text
otel_agent_name prefix = prefix ++ codes "-otel-agent"

module _ ⦃f : Foreign⦄ where
  abbrev pub Setting : Type 0
  Setting = Action (Obsy × World) (Unit {0})

  abbrev pub in_case : {A : Type 0} → ObservabilityCode → Action World A → Action (Obsy × World) A
  in_case c m = wrapping (observability_code c) (on_world m)

  abbrev pub require_unused : Option Ref → Setting
  require_unused none = pure tt
  require_unused (some i) = do
    inst ← on_world (self i)
    require (is_in_state inst.state (State.none ∷ [])) (observability_code setting_not_allowed)

  unfoldable pub validate_state_for_obsy : Setting
  validate_state_for_obsy = do i ← gets (λ p. p.0.own_instance); require_unused i

  abbrev pub configure : (ObsyConfig → ObsyConfig) → Setting
  unfolding validate_state_for_obsy
  configure g = do
    validate_state_for_obsy
    edit_struct (λ o. record o { obsy_config = g o.obsy_config })

  unfoldable pub set_obsy_image : Text → Setting
  set_obsy_image image = edit_struct (λ o. record o { image = image })

  unfoldable pub set_otel_collector_version : Text → Setting
  set_otel_collector_version version =
      configure (λ c. record c { otel_collector_version = version })

  unfoldable pub set_otel_endpoint : ℤ → Setting
  set_otel_endpoint port = configure (λ c. record c { otlp_port = port })

  unfoldable pub set_prometheus_endpoint : ℤ → Text → Text → Setting
  set_prometheus_endpoint port job_name scrape_interval = configure (λ c. record c {
    prometheus_endpoint_port = port;
    prometheus_endpoint_job_name = job_name;
    prometheus_endpoint_scrape_interval = scrape_interval;
  })

  unfoldable pub set_jaeger_endpoint : ℤ → ℤ → ℤ → Setting
  set_jaeger_endpoint grpc_port thrift_compact_port thrift_http_port = configure (λ c. record c {
    jaeger_grpc_port = grpc_port;
    jaeger_thrift_compact_port = thrift_compact_port;
    jaeger_thrift_http_port = thrift_http_port;
  })

  unfoldable pub set_otlp_exporter : Text → Text → Text → Setting
  set_otlp_exporter endpoint username password = configure (λ c. record c {
    otlp_endpoint = endpoint;
    otlp_username = username;
    otlp_password = password;
  })

  unfoldable pub set_jaeger_exporter : Text → Setting
  set_jaeger_exporter endpoint = configure (λ c. record c { jaeger_endpoint = endpoint })

  unfoldable pub set_prometheus_exporter : Text → Setting
  set_prometheus_exporter endpoint =
      configure (λ c. record c { prometheus_exporter_endpoint = endpoint })

  unfoldable pub set_prometheus_remote_write_exporter : Text → Setting
  set_prometheus_remote_write_exporter endpoint =
      configure (λ c. record c { prometheus_remote_write_exporter_endpoint = endpoint })

  unfoldable pub set_logging_exporter : Text → Setting
  set_logging_exporter log_level = configure (λ c. record c {
    logging_exporter_log_level = if is_empty log_level then codes "debug" else log_level;
  })

  module _ ⦃o : Os⦄ where
    unfoldable pub initialize_obsy : (OtelConfig → Call Text) → Text → Setting
    unfolding new_sidecar otel_config
    initialize_obsy marshal name_prefix = do
      i ←
          new_sidecar (λ r b. record b { own_instance = r })
            (observability_code creating_otel_agent_instance) (otel_agent_name name_prefix)
      image ← gets (λ p. p.0.image)
      in_case setting_otel_agent_image (Build.set_image i image [])
      in_case adding_otel_agent_port (Network.add_port_tcp i (pos 8888))
      in_case adding_otel_agent_port (Network.add_port_tcp i (pos 9090))
      in_case setting_otel_agent_cpu (Resources.set_cpu i (f.must_parse (codes "100m")))
      in_case setting_otel_agent_memory
          (Resources.set_memory i (f.must_parse (codes "100Mi")) (f.must_parse (codes "200Mi")))
      in_case committing_otel_agent_instance (Build.commit i)
      config ← gets (λ p. otel_config p.0.obsy_config p.1.scope)
      content ← in_case marshaling_yaml (call (marshal config))
      in_case adding_otel_agent_config_file
          (Storage.add_file_bytes i content (codes "/etc/otel-agent.yaml") (codes "10001:10001"))
      in_case setting_otel_agent_command (
          Build.set_start_command i
            (codes "/otelcol-contrib" ∷ codes "--config=/etc/otel-agent.yaml" ∷ []))

  abbrev pub ready_instance : Option Ref → Setting
  ready_instance none = raise (observability_code obsy_instance_not_initialized)
  ready_instance (some i) = pure tt

  unfoldable pub pre_start_obsy : Setting
  pre_start_obsy = do i ← gets (λ p. p.0.own_instance); ready_instance i

  -- The clone has no image.
  unfoldable pub clone_obsy : ⦃m : SidecarManager⦄ → Text → Action (Obsy × World) Obsy
  clone_obsy name_prefix = do
    i ← gets (λ p. p.0.own_instance)
    original ← deref i
    j ← on_world (clone_with_name original (otel_agent_name name_prefix))
    config ← gets (λ p. p.0.obsy_config)
    pure (record { own_instance = some j; obsy_config = config; image = [] })
