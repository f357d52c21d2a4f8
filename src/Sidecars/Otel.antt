-- ===== src/Sidecars/Otel.antt =====
-- otel.go of pkg/sidecars/observability: the configuration of the collector from the settings of obsy.go.
use knuu.Prelude.{zero, suc, Bool, true, false, not, ◌&&◌, ◌||◌, if◌then◌else◌, List, [], ◌∷◌, ◌++◌}
use knuu.Prelude.Text.{Text, codes, is_empty}
use knuu.Prelude.Strings.{show_int}
use knuu.Prelude.Int.{ℤ, pos, negsuc}
use knuu.Sidecars.Schema.{
  no_extensions, no_receivers, no_otlp_auth, no_exporters, no_metrics, no_traces, no_memory_limiter,
  empty_batch, Extensions, Otlp, Prometheus, Jaeger, Receivers, OtlpHttpExporter, JaegerExporter,
  PrometheusExporter, PrometheusRemoteWriteExporter, LoggingExporter, Exporters, Metrics, Traces,
  Service, Processors, OtelConfig,
}

pub record ObsyConfig : Type 0 where
  pub otel_collector_version : Text
  pub prometheus_endpoint_port : ℤ
  pub prometheus_endpoint_job_name : Text
  pub prometheus_endpoint_scrape_interval : Text
  pub jaeger_grpc_port : ℤ
  pub jaeger_thrift_compact_port : ℤ
  pub jaeger_thrift_http_port : ℤ
  pub jaeger_endpoint : Text
  pub otlp_port : ℤ
  pub otlp_endpoint : Text
  pub otlp_username : Text
  pub otlp_password : Text
  pub prometheus_exporter_endpoint : Text
  pub prometheus_remote_write_exporter_endpoint : Text
  pub logging_exporter_log_level : Text

-- port != 0, and a text that is not "".
abbrev pub is_set : ℤ → Bool
is_set (pos zero) = false
is_set (pos (suc n)) = true
is_set (negsuc n) = true

abbrev pub is_given : Text → Bool
is_given t = not (is_empty t)

abbrev pub localhost : ℤ → Text
localhost port = codes "localhost:" ++ show_int port

abbrev pub internal_telemetry_endpoint : Text
internal_telemetry_endpoint = codes "localhost:8888"

abbrev pub authenticator : Text
authenticator = codes "basicauth/otlp"

unfoldable pub create_extensions : ObsyConfig → Extensions
create_extensions c =
    if is_empty c.otlp_endpoint || (is_empty c.otlp_username || is_empty c.otlp_password)
    then no_extensions
    else record {
      basic_auth_otlp = record {
        client_auth = record { username = c.otlp_username; password = c.otlp_password };
      };
    }

abbrev pub create_otlp_receiver : ObsyConfig → Otlp
create_otlp_receiver c = record {
  protocols = record { http = record { endpoint = localhost c.otlp_port } };
}

abbrev pub create_prometheus_receiver : ObsyConfig → Prometheus
create_prometheus_receiver c = record {
  config = record {
    scrape_configs =
        record {
          job_name = c.prometheus_endpoint_job_name;
          scrape_interval = c.prometheus_endpoint_scrape_interval;
          static_configs = record { targets = localhost c.prometheus_endpoint_port ∷ [] } ∷ [];
        }
        ∷ record {
          job_name = codes "internal-telemetry";
          scrape_interval = codes "10s";
          static_configs = record { targets = internal_telemetry_endpoint ∷ [] } ∷ [];
        }
        ∷ [];
  };
}

abbrev pub create_jaeger_receiver : ObsyConfig → Jaeger
create_jaeger_receiver c = record {
  protocols = record {
    grpc = record { endpoint = localhost c.jaeger_grpc_port };
    thrift_compact = record { endpoint = localhost c.jaeger_thrift_compact_port };
    thrift_http = record { endpoint = localhost c.jaeger_thrift_http_port };
  };
}

unfoldable pub create_receivers : ObsyConfig → Receivers
create_receivers c = record {
  otlp = if is_set c.otlp_port then create_otlp_receiver c else no_receivers.otlp;
  prometheus =
      if is_set c.prometheus_endpoint_port
      then create_prometheus_receiver c
      else no_receivers.prometheus;
  jaeger = if is_set c.jaeger_grpc_port then create_jaeger_receiver c else no_receivers.jaeger;
}

abbrev pub create_otlp_http_exporter : ObsyConfig → OtlpHttpExporter
create_otlp_http_exporter c = record {
  auth =
      if is_given c.otlp_username && is_given c.otlp_password
      then record { authenticator = authenticator }
      else no_otlp_auth;
  endpoint = c.otlp_endpoint;
}

abbrev pub create_jaeger_exporter : ObsyConfig → JaegerExporter
create_jaeger_exporter c = record { endpoint = c.jaeger_endpoint; tls = record { insecure = true } }

abbrev pub create_prometheus_exporter : ObsyConfig → PrometheusExporter
create_prometheus_exporter c = record { endpoint = c.prometheus_exporter_endpoint }

abbrev pub create_prometheus_remote_write_exporter : ObsyConfig → PrometheusRemoteWriteExporter
create_prometheus_remote_write_exporter c = record {
  endpoint = c.prometheus_remote_write_exporter_endpoint;
  tls = record { insecure = true };
}

abbrev pub create_logging_exporter : ObsyConfig → LoggingExporter
create_logging_exporter c = record { log_level = c.logging_exporter_log_level }

unfoldable pub create_exporters : ObsyConfig → Exporters
create_exporters c = record {
  otlp_http =
      if is_given c.otlp_endpoint then create_otlp_http_exporter c else no_exporters.otlp_http;
  jaeger = if is_given c.jaeger_endpoint then create_jaeger_exporter c else no_exporters.jaeger;
  prometheus =
      if is_given c.prometheus_exporter_endpoint
      then create_prometheus_exporter c
      else no_exporters.prometheus;
  prometheus_remote_write =
      if is_given c.prometheus_remote_write_exporter_endpoint
      then create_prometheus_remote_write_exporter c
      else no_exporters.prometheus_remote_write;
  logging =
      if is_given c.logging_exporter_log_level
      then create_logging_exporter c
      else no_exporters.logging;
}

-- if b { names = append(names, name) }, before what is appended after it.
abbrev pub named_if : Bool → Text → List Text → List Text
named_if b name rest = if b then name ∷ rest else rest

abbrev pub has_none : List Text → Bool
has_none [] = true
has_none (n ∷ ns) = false

abbrev pub metrics_receivers : ObsyConfig → List Text
metrics_receivers c =
    named_if (is_set c.otlp_port) (codes "otlp")
      (named_if (is_set c.prometheus_endpoint_port) (codes "prometheus") [])

abbrev pub metrics_exporters : ObsyConfig → List Text
metrics_exporters c = named_if (is_given c.otlp_endpoint) (codes "otlphttp") (
    named_if (is_given c.prometheus_exporter_endpoint) (codes "prometheus") (
      named_if (is_given c.prometheus_remote_write_exporter_endpoint)
        (codes "prometheusremotewrite")
        (named_if (is_given c.logging_exporter_log_level) (codes "logging") [])))

unfoldable pub prepare_metrics_for_service_pipeline : ObsyConfig → Metrics
prepare_metrics_for_service_pipeline c =
    if has_none (metrics_receivers c) || has_none (metrics_exporters c)
    then no_metrics
    else record {
      receivers = metrics_receivers c;
      exporters = metrics_exporters c;
      processors = codes "attributes" ∷ [];
    }

abbrev pub has_jaeger_port : ObsyConfig → Bool
has_jaeger_port c =
    is_set c.jaeger_grpc_port
    || (is_set c.jaeger_thrift_compact_port || is_set c.jaeger_thrift_http_port)

abbrev pub traces_receivers : ObsyConfig → List Text
traces_receivers c =
    named_if (is_set c.otlp_port) (codes "otlp") (named_if (has_jaeger_port c) (codes "jaeger") [])

abbrev pub traces_exporters : ObsyConfig → List Text
traces_exporters c = named_if (is_given c.otlp_endpoint) (codes "otlphttp") (
    named_if (is_given c.jaeger_endpoint) (codes "jaeger")
      (named_if (is_given c.logging_exporter_log_level) (codes "logging") []))

unfoldable pub prepare_traces_for_service_pipeline : ObsyConfig → Traces
prepare_traces_for_service_pipeline c =
    if has_none (traces_receivers c) || has_none (traces_exporters c) then no_traces else record {
      receivers = traces_receivers c;
      exporters = traces_exporters c;
      processors = codes "attributes" ∷ [];
    }

unfoldable pub create_collector_service : ObsyConfig → Service
unfolding prepare_metrics_for_service_pipeline prepare_traces_for_service_pipeline
create_collector_service c = record {
  extensions =
      named_if (is_given c.otlp_endpoint && (is_given c.otlp_username && is_given c.otlp_password))
        authenticator [];
  pipelines = record {
    metrics = prepare_metrics_for_service_pipeline c;
    traces = prepare_traces_for_service_pipeline c;
  };
  telemetry = record {
    metrics = record { address = internal_telemetry_endpoint; level = codes "basic" };
  };
}

unfoldable pub create_processors : Text → Processors
create_processors scope = record {
  batch = empty_batch;
  memory_limiter = no_memory_limiter;
  attributes = record {
    actions = record { key = codes "scope"; value = scope; action = codes "insert" } ∷ [];
  };
}

-- The configuration that Initialize writes.
unfoldable pub otel_config : ObsyConfig → Text → OtelConfig
unfolding create_extensions create_receivers create_exporters create_collector_service
    create_processors
otel_config c scope = record {
  extensions = create_extensions c;
  receivers = create_receivers c;
  exporters = create_exporters c;
  service = create_collector_service c;
  processors = create_processors scope;
}
