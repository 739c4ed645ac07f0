-- ===== src/Launcher/Observability/Tests.antt =====
-- Exporters that are all built, and a guard whose meter provider does not shut down.
use modular_rust_platform.Base.{String, true, false, [], ◌∷◌, Result, ok, err, ◌≡◌, refl, ◌↔◌}
use modular_rust_platform.Launcher.Observability.Accepted.{Builds, Succeeds, init_observability_iff}
use modular_rust_platform.Launcher.Observability.{
  f64_one, Kind, tracer, meter, shut_down, ObservabilityConfig, OtelGuard, Exporters, grpc,
  guard_of, step_then, shutdown, init_observability, init_providers, init_export,
}

abbrev built : Exporters
built = record {
  prometheus = ok tt;
  metric = λ protocol. ok tt;
  span = λ protocol. ok tt;
  log = λ protocol. ok tt;
}

abbrev exporting : ObservabilityConfig
exporting = record {
  enabled = true;
  protocol = grpc;
  service_name = "app";
  service_version = "0.0.0";
  resource_attributes = [];
  trace_sample_ratio = f64_one;
  log_filter = "info";
  metrics_enabled = true;
  prometheus_enabled = false;
  http_logging_enabled = true;
  process_metrics_enabled = false;
}

abbrev guard : OtelGuard
guard = guard_of true true true false

abbrev stuck_meter : Kind → Result (Unit {0}) String
stuck_meter meter = err "timeout"
stuck_meter _ = ok tt

init-exporting : (init_observability built exporting).1 ≡ ok guard
unfolding init_observability init_providers init_export
init-exporting = refl

shutdown-stuck : shutdown stuck_meter guard ≡ (tracer ∷ meter ∷ [], err (shut_down meter "timeout"))
unfolding shutdown step_then
shutdown-stuck = refl

init_observability_iff_example : Succeeds (init_observability built exporting) ↔ (
    Builds false built.prometheus
    × Builds true (built.metric grpc)
    × Builds true (built.span grpc)
    × Builds true (built.log grpc))
init_observability_iff_example = init_observability_iff built exporting
