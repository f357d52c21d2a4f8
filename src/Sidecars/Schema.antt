-- ===== src/Sidecars/Schema.antt =====
-- otel.go of pkg/sidecars/observability: the configuration of the collector, as the structs that are
-- written in YAML. The values named `no_…` are the zero values of the structs.
use knuu.Prelude.{Bool, false, List, []}
use knuu.Prelude.Text.{Text}
use knuu.Prelude.Int.{ℤ, pos}

pub data Batch : Type 0 where
  empty_batch : Batch

pub record ClientAuth : Type 0 where
  pub username : Text
  pub password : Text

pub record BasicAuthOtlp : Type 0 where
  pub client_auth : ClientAuth

pub record Extensions : Type 0 where
  pub basic_auth_otlp : BasicAuthOtlp

pub record OtlpHttp : Type 0 where
  pub endpoint : Text

pub record OtlpProtocols : Type 0 where
  pub http : OtlpHttp

pub record Otlp : Type 0 where
  pub protocols : OtlpProtocols

pub record StaticConfig : Type 0 where
  pub targets : List Text

pub record ScrapeConfig : Type 0 where
  pub job_name : Text
  pub scrape_interval : Text
  pub static_configs : List StaticConfig

pub record PrometheusConfig : Type 0 where
  pub scrape_configs : List ScrapeConfig

pub record Prometheus : Type 0 where
  pub config : PrometheusConfig

pub record JaegerGrpc : Type 0 where
  pub endpoint : Text

pub record JaegerThriftCompact : Type 0 where
  pub endpoint : Text

pub record JaegerThriftHttp : Type 0 where
  pub endpoint : Text

pub record JaegerProtocols : Type 0 where
  pub grpc : JaegerGrpc
  pub thrift_compact : JaegerThriftCompact
  pub thrift_http : JaegerThriftHttp

pub record Jaeger : Type 0 where
  pub protocols : JaegerProtocols

pub record Receivers : Type 0 where
  pub otlp : Otlp
  pub prometheus : Prometheus
  pub jaeger : Jaeger

pub record OtlpAuth : Type 0 where
  pub authenticator : Text

pub record OtlpHttpExporter : Type 0 where
  pub auth : OtlpAuth
  pub endpoint : Text

pub record Tls : Type 0 where
  pub insecure : Bool

pub record JaegerExporter : Type 0 where
  pub endpoint : Text
  pub tls : Tls

pub record PrometheusExporter : Type 0 where
  pub endpoint : Text

pub record PrometheusRemoteWriteExporter : Type 0 where
  pub endpoint : Text
  pub tls : Tls

pub record LoggingExporter : Type 0 where
  pub log_level : Text

pub record Exporters : Type 0 where
  pub otlp_http : OtlpHttpExporter
  pub jaeger : JaegerExporter
  pub prometheus : PrometheusExporter
  pub prometheus_remote_write : PrometheusRemoteWriteExporter
  pub logging : LoggingExporter

pub record Metrics : Type 0 where
  pub receivers : List Text
  pub exporters : List Text
  pub processors : List Text

pub record Traces : Type 0 where
  pub receivers : List Text
  pub exporters : List Text
  pub processors : List Text

pub record Pipelines : Type 0 where
  pub metrics : Metrics
  pub traces : Traces

pub record MetricsTelemetry : Type 0 where
  pub address : Text
  pub level : Text

pub record Telemetry : Type 0 where
  pub metrics : MetricsTelemetry

pub record Service : Type 0 where
  pub extensions : List Text
  pub pipelines : Pipelines
  pub telemetry : Telemetry

pub record MemoryLimiter : Type 0 where
  pub limit_mib : ℤ
  pub spike_limit_mib : ℤ
  pub check_interval : Text

pub record Action : Type 0 where
  pub key : Text
  pub value : Text
  pub action : Text

pub record Attributes : Type 0 where
  pub actions : List Action

pub record Processors : Type 0 where
  pub batch : Batch
  pub memory_limiter : MemoryLimiter
  pub attributes : Attributes

pub record OtelConfig : Type 0 where
  pub extensions : Extensions
  pub receivers : Receivers
  pub exporters : Exporters
  pub service : Service
  pub processors : Processors

abbrev pub no_client_auth : ClientAuth
no_client_auth = record { username = []; password = [] }

abbrev pub no_basic_auth_otlp : BasicAuthOtlp
no_basic_auth_otlp = record { client_auth = no_client_auth }

abbrev pub no_extensions : Extensions
no_extensions = record { basic_auth_otlp = no_basic_auth_otlp }

abbrev pub no_otlp_http : OtlpHttp
no_otlp_http = record { endpoint = [] }

abbrev pub no_otlp_protocols : OtlpProtocols
no_otlp_protocols = record { http = no_otlp_http }

abbrev pub no_otlp : Otlp
no_otlp = record { protocols = no_otlp_protocols }

abbrev pub no_prometheus_config : PrometheusConfig
no_prometheus_config = record { scrape_configs = [] }

abbrev pub no_prometheus : Prometheus
no_prometheus = record { config = no_prometheus_config }

abbrev pub no_jaeger_grpc : JaegerGrpc
no_jaeger_grpc = record { endpoint = [] }

abbrev pub no_jaeger_thrift_compact : JaegerThriftCompact
no_jaeger_thrift_compact = record { endpoint = [] }

abbrev pub no_jaeger_thrift_http : JaegerThriftHttp
no_jaeger_thrift_http = record { endpoint = [] }

abbrev pub no_jaeger_protocols : JaegerProtocols
no_jaeger_protocols = record {
  grpc = no_jaeger_grpc;
  thrift_compact = no_jaeger_thrift_compact;
  thrift_http = no_jaeger_thrift_http;
}

abbrev pub no_jaeger : Jaeger
no_jaeger = record { protocols = no_jaeger_protocols }

abbrev pub no_receivers : Receivers
no_receivers = record { otlp = no_otlp; prometheus = no_prometheus; jaeger = no_jaeger }

abbrev pub no_otlp_auth : OtlpAuth
no_otlp_auth = record { authenticator = [] }

abbrev pub no_otlp_http_exporter : OtlpHttpExporter
no_otlp_http_exporter = record { auth = no_otlp_auth; endpoint = [] }

abbrev pub no_tls : Tls
no_tls = record { insecure = false }

abbrev pub no_jaeger_exporter : JaegerExporter
no_jaeger_exporter = record { endpoint = []; tls = no_tls }

abbrev pub no_prometheus_exporter : PrometheusExporter
no_prometheus_exporter = record { endpoint = [] }

abbrev pub no_prometheus_remote_write_exporter : PrometheusRemoteWriteExporter
no_prometheus_remote_write_exporter = record { endpoint = []; tls = no_tls }

abbrev pub no_logging_exporter : LoggingExporter
no_logging_exporter = record { log_level = [] }

abbrev pub no_exporters : Exporters
no_exporters = record {
  otlp_http = no_otlp_http_exporter;
  jaeger = no_jaeger_exporter;
  prometheus = no_prometheus_exporter;
  prometheus_remote_write = no_prometheus_remote_write_exporter;
  logging = no_logging_exporter;
}

abbrev pub no_metrics : Metrics
no_metrics = record { receivers = []; exporters = []; processors = [] }

abbrev pub no_traces : Traces
no_traces = record { receivers = []; exporters = []; processors = [] }

abbrev pub no_memory_limiter : MemoryLimiter
no_memory_limiter = record { limit_mib = pos 0; spike_limit_mib = pos 0; check_interval = [] }
