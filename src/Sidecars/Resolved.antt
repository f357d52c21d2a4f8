-- ===== src/Sidecars/Resolved.antt =====
-- The pipelines of the collector, and the keys that its configuration has in YAML.
use knuu.Prelude.{
  ◌≡◌, refl, ◌∙◌, Bool, true, false, not, ◌&&◌, ◌||◌, if◌then◌else◌, inl, inr, List, [], ◌∷◌, ◌++◌,
  any, Bool-cases, arith,
}
use knuu.Prelude.Text.{Text, codes, text_eq}
use knuu.Sidecars.Schema.{Extensions, Otlp, Prometheus, Jaeger, Receivers, Exporters, OtelConfig}
use knuu.Sidecars.Otel.{
  ObsyConfig, is_set, is_given, named_if, has_none, otel_config, metrics_receivers,
  metrics_exporters, traces_receivers, traces_exporters, create_receivers, create_exporters,
  create_extensions, create_collector_service, prepare_metrics_for_service_pipeline,
  prepare_traces_for_service_pipeline,
}

-- Whether `omitempty` leaves a key: the struct is not the zero value.
abbrev pub has_otlp : Otlp → Bool
has_otlp o = is_given o.protocols.http.endpoint

abbrev pub has_prometheus : Prometheus → Bool
has_prometheus p = elim p.config.scrape_configs [ [] ↦ false | s ∷ ss ↦ true ]

abbrev pub has_jaeger : Jaeger → Bool
has_jaeger j =
    is_given j.protocols.grpc.endpoint
    || (is_given j.protocols.thrift_compact.endpoint || is_given j.protocols.thrift_http.endpoint)

abbrev pub receiver_keys : Receivers → List Text
receiver_keys r = named_if (has_otlp r.otlp) (codes "otlp") (
    named_if (has_prometheus r.prometheus) (codes "prometheus")
      (named_if (has_jaeger r.jaeger) (codes "jaeger") []))

abbrev pub exporter_keys : Exporters → List Text
exporter_keys e =
    named_if (is_given e.otlp_http.endpoint || is_given e.otlp_http.auth.authenticator)
      (codes "otlphttp")
      (named_if (is_given e.jaeger.endpoint || e.jaeger.tls.insecure) (codes "jaeger") (
        named_if (is_given e.prometheus.endpoint) (codes "prometheus") (
          named_if
            (is_given e.prometheus_remote_write.endpoint || e.prometheus_remote_write.tls.insecure)
            (codes "prometheusremotewrite")
            (named_if (is_given e.logging.log_level) (codes "logging") []))))

abbrev pub extension_keys : Extensions → List Text
extension_keys e =
    named_if
      (is_given e.basic_auth_otlp.client_auth.username
        || is_given e.basic_auth_otlp.client_auth.password)
      (codes "basicauth/otlp") []

abbrev pub is_among : List Text → Text → Bool
is_among names n = any (λ m. text_eq m n) names

abbrev pub all_among : List Text → List Text → Bool
all_among keys [] = true
all_among keys (n ∷ ns) = is_among keys n && all_among keys ns

-- Every name of the service is a key of the configuration.
abbrev pub is_resolved : OtelConfig → Bool
is_resolved config =
    all_among (extension_keys config.extensions) config.service.extensions
    && (all_among (receiver_keys config.receivers)
          (config.service.pipelines.metrics.receivers ++ config.service.pipelines.traces.receivers)
        && all_among (exporter_keys config.exporters) (
            config.service.pipelines.metrics.exporters
            ++ config.service.pipelines.traces.exporters))

-- A thrift port without the gRPC port, where traces are exported.
abbrev pub lacks_grpc : ObsyConfig → Bool
lacks_grpc c =
    not (is_set c.jaeger_grpc_port)
    && ((is_set c.jaeger_thrift_compact_port || is_set c.jaeger_thrift_http_port)
        && not (has_none (traces_exporters c)))

all_among-++ :
    (keys ms ns : List Text) → all_among keys (ms ++ ns) ≡ all_among keys ms && all_among keys ns
all_among-++ keys [] ns = refl
all_among-++ keys (m ∷ ms) ns = ground (arith, all_among-++ keys ms ns)

abbrev exporter_chain : Bool → Bool → Bool → Bool → Bool → List Text
exporter_chain o j p r l = named_if o (codes "otlphttp") (
    named_if j (codes "jaeger") (
      named_if p (codes "prometheus")
        (named_if r (codes "prometheusremotewrite") (named_if l (codes "logging") []))))

abbrev receiver_chain : Bool → Bool → Bool → List Text
receiver_chain o p j =
    named_if o (codes "otlp") (named_if p (codes "prometheus") (named_if j (codes "jaeger") []))

metrics_received :
    (o p j : Bool) → all_among (receiver_chain o p j) (receiver_chain o p false) ≡ true
metrics_received o p j = ground arith

metrics_exported :
    (o j p r l : Bool) → all_among (exporter_chain o j p r l) (exporter_chain o false p r l) ≡ true
metrics_exported o j p r l = ground arith

traces_exported :
    (o j p r l : Bool)
    → all_among (exporter_chain o j p r l) (exporter_chain o j false false l) ≡ true
traces_exported o j p r l = ground arith

traces_received :
    (o p g t x : Bool)
    → let names = receiver_chain o false (g || t) in
      all_among (receiver_chain o p g) (if has_none names || x then [] else names)
      ≡ not (not g && (t && not x))
traces_received o p g t x = ground arith

receiver_keys_lem :
    (c : ObsyConfig)
    → receiver_keys (create_receivers c)
      ≡ receiver_chain
          (is_set c.otlp_port)
          (is_set c.prometheus_endpoint_port)
          (is_set c.jaeger_grpc_port)
unfolding create_receivers
receiver_keys_lem c = ground arith

exporter_keys_lem :
    (c : ObsyConfig)
    → exporter_keys (create_exporters c)
      ≡ exporter_chain
          (is_given c.otlp_endpoint)
          (is_given c.jaeger_endpoint)
          (is_given c.prometheus_exporter_endpoint)
          (is_given c.prometheus_remote_write_exporter_endpoint)
          (is_given c.logging_exporter_log_level)
unfolding create_exporters
exporter_keys_lem c = ground arith

extensions_among :
    (c : ObsyConfig)
    → all_among (extension_keys (create_extensions c)) (create_collector_service c).extensions
      ≡ true
unfolding create_extensions create_collector_service
extensions_among c = ground arith

module _ (c : ObsyConfig) where
  kept :
      (b : Bool) (keys names : List Text)
      → all_among keys names ≡ true
      → all_among keys (if b then [] else names) ≡ true
  kept true keys names h = refl
  kept false keys names h = h

  metrics_parts :
      let m = prepare_metrics_for_service_pipeline c in
      let b = has_none (metrics_receivers c) || has_none (metrics_exporters c) in
      (m.receivers ≡ (if b then [] else metrics_receivers c))
      × (m.exporters ≡ (if b then [] else metrics_exporters c))
  unfolding prepare_metrics_for_service_pipeline
  metrics_parts =
      elim (Bool-cases (has_none (metrics_receivers c) || has_none (metrics_exporters c))) [
        | inl e ↦ rw e (refl, refl)
        | inr e ↦ rw e (refl, refl)
      ]

  traces_parts :
      let t = prepare_traces_for_service_pipeline c in
      let b = has_none (traces_receivers c) || has_none (traces_exporters c) in
      (t.receivers ≡ (if b then [] else traces_receivers c))
      × (t.exporters ≡ (if b then [] else traces_exporters c))
  unfolding prepare_traces_for_service_pipeline
  traces_parts =
      elim (Bool-cases (has_none (traces_receivers c) || has_none (traces_exporters c))) [
        | inl e ↦ rw e (refl, refl)
        | inr e ↦ rw e (refl, refl)
      ]

  receivers_resolved :
      let s = create_collector_service c in
      let keys = receiver_keys (create_receivers c) in
      all_among keys (s.pipelines.metrics.receivers ++ s.pipelines.traces.receivers)
      ≡ not (lacks_grpc c)
  unfolding create_collector_service
  receivers_resolved =
      all_among-++ _ (prepare_metrics_for_service_pipeline c).receivers _
      ∙ rw (receiver_keys_lem c, metrics_parts.0, traces_parts.0)
          (rw
            (kept _ _ _ (
              metrics_received (is_set c.otlp_port) (is_set c.prometheus_endpoint_port)
                (is_set c.jaeger_grpc_port)))
            (traces_received (is_set c.otlp_port) (is_set c.prometheus_endpoint_port)
              (is_set c.jaeger_grpc_port)
              (is_set c.jaeger_thrift_compact_port || is_set c.jaeger_thrift_http_port)
              (has_none (traces_exporters c))))

  exporters_resolved :
      let s = create_collector_service c in
      let keys = exporter_keys (create_exporters c) in
      all_among keys (s.pipelines.metrics.exporters ++ s.pipelines.traces.exporters) ≡ true
  unfolding create_collector_service
  exporters_resolved =
      all_among-++ _ (prepare_metrics_for_service_pipeline c).exporters _
      ∙ rw (exporter_keys_lem c, metrics_parts.1, traces_parts.1)
          (rw
            (
              kept _ _ _ (metrics_exported _ (is_given c.jaeger_endpoint) _ _ _),
              kept _ _ _ (
                  traces_exported _ _ (is_given c.prometheus_exporter_endpoint)
                    (is_given c.prometheus_remote_write_exporter_endpoint) _),
            )
            refl)

-- Every extension, receiver and exporter that the service names is a key of the configuration in YAML,
-- exactly unless a thrift port of Jaeger is set without its gRPC port while traces are exported.
pub otel_config-resolved :
    (c : ObsyConfig) (scope : Text) → is_resolved (otel_config c scope) ≡ not (lacks_grpc c)
unfolding otel_config
otel_config-resolved c scope =
    rw (extensions_among c, exporters_resolved c, receivers_resolved c) (and_true _)
  where
    and_true : (b : Bool) → b && true ≡ b
    and_true true = refl
    and_true false = refl
