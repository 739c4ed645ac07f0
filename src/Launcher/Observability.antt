-- ===== src/Launcher/Observability.antt =====
-- crates/stano-launcher/src/observability.rs: the set-up of the providers and the guard that shuts
-- them down. The OpenTelemetry crates are a parameter: whether each exporter is built, and what
-- `shutdown` and `force_flush` of each provider return. A provider is its kind, an `anyhow::Error` the
-- step that failed with the text of its cause.
pub mod Guard
pub mod Accepted
mod Tests
use modular_rust_platform.Base.{
  ℕ, String, Bool, true, false, ◌&&◌, ◌||◌, Option, none, some, List, [], ◌∷◌, ◌++◌, Result, ok,
  err, if◌then◌else◌,
}

pub data OtlpProtocol : Type 0 where
  grpc http_protobuf : OtlpProtocol

pub data Kind : Type 0 where
  tracer meter logger : Kind

-- What can fail: an exporter, or a step for a provider.
pub data Failure : Type 0 where
  prometheus_exporter metric_exporter span_exporter log_exporter : String → Failure
  flush shut_down : Kind → String → Failure

-- The bits of the `f64` 1.0.
abbrev pub f64_one : ℕ
f64_one = 0x3ff0000000000000

-- The ratio is the bits of an `f64`.
pub record ObservabilityConfig : Type 0 where
  pub enabled : Bool
  pub protocol : OtlpProtocol
  pub service_name : String
  pub service_version : String
  pub resource_attributes : List (String × String)
  pub trace_sample_ratio : ℕ
  pub log_filter : String
  pub metrics_enabled : Bool
  pub prometheus_enabled : Bool
  pub http_logging_enabled : Bool
  pub process_metrics_enabled : Bool

-- The attributes that `build_resource` adds to those of the builder, in their order.
unfoldable pub build_resource : ObservabilityConfig → List (String × String)
build_resource config =
    ("service.name", config.service_name)
    ∷ ("service.version", config.service_version)
    ∷ config.resource_attributes

-- Which of its parts the guard holds.
pub record OtelGuard : Type 0 where
  pub tracer_provider : Bool
  pub meter_provider : Bool
  pub logger_provider : Bool
  pub prometheus_registry : Bool

-- `build()` of the exporters.
pub record Exporters : Type 0 where
  pub prometheus : Result (Unit {0}) String
  pub metric : OtlpProtocol → Result (Unit {0}) String
  pub span : OtlpProtocol → Result (Unit {0}) String
  pub log : OtlpProtocol → Result (Unit {0}) String

-- The global effects of `init_observability`; a provider has its resource.
pub data Event : Type 0 where
  set_meter_provider set_tracer_provider : List (String × String) → Event
  spawn_process_metrics : Event
  subscribe : Bool → Event

abbrev pub guard_of : Bool → Bool → Bool → Bool → OtelGuard
guard_of t m l p = record {
  tracer_provider = t;
  meter_provider = m;
  logger_provider = l;
  prometheus_registry = p;
}

-- A build under its switch, with `?` on its error.
abbrev pub when : Bool → Result (Unit {0}) String → (String → Failure) → Result (Unit {0}) Failure
when false build fail = ok tt
when true (ok done) fail = ok tt
when true (err e) fail = err (fail e)

abbrev event_if : Bool → Event → List Event
event_if false event = []
event_if true event = event ∷ []

-- `have_meter_reader`
abbrev pub have_meter_reader : ObservabilityConfig → Bool
have_meter_reader config = config.prometheus_enabled || config.enabled && config.metrics_enabled

-- The part behind the early return.
unfoldable pub init_export :
    Exporters → ObservabilityConfig → List Event → List Event × Result OtelGuard Failure
unfolding build_resource
init_export exporters config events =
    elim (when true (exporters.span config.protocol) span_exporter) [
      | err e ↦ (events, err e)
      | ok _ ↦ elim (when true (exporters.log config.protocol) log_exporter) [
        | err e ↦ (events ++ set_tracer_provider (build_resource config) ∷ [], err e)
        | ok _ ↦ (
          events ++ set_tracer_provider (build_resource config) ∷ subscribe true ∷ [],
          ok (guard_of true (have_meter_reader config) true config.prometheus_enabled),
        )
      ]
    ]

unfoldable pub init_providers :
    Exporters → ObservabilityConfig → List Event × Result OtelGuard Failure
unfolding init_export build_resource
init_providers exporters config =
    let events =
      event_if (have_meter_reader config) (set_meter_provider (build_resource config))
      ++ event_if (config.process_metrics_enabled && have_meter_reader config)
          spawn_process_metrics in
    let exported = init_export exporters config events in
    if config.enabled then exported else (
      events ++ subscribe false ∷ [],
      ok (guard_of false (have_meter_reader config) false config.prometheus_enabled),
    )

unfoldable pub init_observability :
    Exporters → ObservabilityConfig → List Event × Result OtelGuard Failure
unfolding init_providers
init_observability exporters config =
    elim (when config.prometheus_enabled exporters.prometheus prometheus_exporter) [
      | err e ↦ ([], err e)
      | ok _ ↦
          elim (when (config.enabled && config.metrics_enabled) (exporters.metric config.protocol)
            metric_exporter) [ err e ↦ ([], err e) | ok _ ↦ init_providers exporters config ]
    ]

abbrev pub holds : OtelGuard → Kind → Bool
holds guard tracer = guard.tracer_provider
holds guard meter = guard.meter_provider
holds guard logger = guard.logger_provider

-- One `if let Some(provider)` of `shutdown` or `force_flush`, and what follows it: the providers on
-- which the step was run, and the error that `?` returns.
unfoldable pub step_then :
    (Kind → Result (Unit {0}) String)
    → (Kind → String → Failure)
    → OtelGuard
    → Kind
    → List Kind × Result (Unit {0}) Failure
    → List Kind × Result (Unit {0}) Failure
step_then run fail guard kind rest =
    if holds guard kind
    then elim (run kind) [ ok _ ↦ (kind ∷ rest.0, rest.1) | err e ↦ (kind ∷ [], err (fail kind e)) ]
    else rest

pub force_flush :
    (Kind → Result (Unit {0}) String) → OtelGuard → List Kind × Result (Unit {0}) Failure
unfolding step_then
force_flush run guard =
    step_then run flush guard tracer
      (step_then run flush guard meter (step_then run flush guard logger ([], ok tt)))

unfoldable pub shutdown :
    (Kind → Result (Unit {0}) String) → OtelGuard → List Kind × Result (Unit {0}) Failure
unfolding step_then
shutdown run guard =
    step_then run shut_down guard tracer
      (step_then run shut_down guard meter (step_then run shut_down guard logger ([], ok tt)))

-- `Drop`: each provider is shut down, and an error is a warning.
unfoldable pub drop_step : OtelGuard → Kind → List Kind → List Kind
drop_step guard kind rest = if holds guard kind then kind ∷ rest else rest

unfoldable pub drop_guard : OtelGuard → List Kind
unfolding drop_step
drop_guard guard = drop_step guard tracer (drop_step guard meter (drop_step guard logger []))
