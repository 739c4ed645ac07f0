-- ===== src/Launcher/Run/Tests.antt =====
-- A run with telemetry whose port is taken.
use modular_rust_platform.Base.{
  ℕ, String, true, false, none, [], Result, ok, err, ◌≡◌, refl, ◌↔◌, ◌⊎◌, In,
}
use modular_rust_platform.Launcher.Observability.{
  f64_one, Kind, logger, OtelGuard, Exporters, grpc, holds, guard_of, init_observability,
}
use modular_rust_platform.Launcher.Server.{BootstrapConfig}
use modular_rust_platform.Launcher.Run.{run, RunError, bind_failed}
use modular_rust_platform.Launcher.Run.Shutdown.{asked_by, asked_by_shutdown, run-asked_by, run_iff}

abbrev built : Exporters
built = record {
  prometheus = ok tt;
  metric = λ protocol. ok tt;
  span = λ protocol. ok tt;
  log = λ protocol. ok tt;
}

abbrev exporting : BootstrapConfig
exporting = record {
  port = 8080;
  cors_origins = [];
  cors_origin_suffixes = [];
  cors_dev_origins = [];
  is_dev = true;
  observability = record {
    enabled = true;
    protocol = grpc;
    service_name = "app";
    service_version = "0.0.0";
    resource_attributes = [];
    trace_sample_ratio = f64_one;
    log_filter = "info";
    metrics_enabled = false;
    prometheus_enabled = false;
    http_logging_enabled = true;
    process_metrics_enabled = false;
  };
  enable_swagger = true;
}

abbrev taken : ℕ → Result (Unit {0}) String
taken port = err "in use"

abbrev stops : Kind → Result (Unit {0}) String
stops kind = ok tt

abbrev ended : Result (Unit {0}) String
ended = ok tt

abbrev guard : OtelGuard
guard = guard_of true false true false

run-taken :
    (run taken ended stops built exporting none true false false).1 ≡ err (bind_failed "in use")
unfolding run
run-taken = refl

init-exporting : (init_observability built exporting.observability).1 ≡ ok guard
unfolding init_observability
init-exporting = refl

run-asked_by_example :
    let failed = run taken ended stops built exporting none true false false in
    (In logger (asked_by failed.0) ↔ (holds guard logger ≡ true))
    × (((cause : RunError) × (failed.1 ≡ err cause))
        ⊎ (In logger (asked_by_shutdown failed.0) ↔ (holds guard logger ≡ true)))
run-asked_by_example =
    run-asked_by taken ended stops built exporting none true false false guard logger init-exporting

run_iff_example : ((run taken ended stops built exporting none true false false).1 ≡ ok tt) ↔ (
    (made : OtelGuard) × ((init_observability built exporting.observability).1 ≡ ok made)
    × (taken 8080 ≡ ok tt)
    × (ended ≡ ok tt)
    × ((kind : Kind) → holds made kind ≡ true → stops kind ≡ ok tt))
run_iff_example = run_iff taken ended stops built exporting none true false false
