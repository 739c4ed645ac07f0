-- ===== src/Launcher/Config.antt =====
-- crates/stano-launcher/src/config.rs and `observability_config_from_env` of
-- crates/stano-launcher/src/observability.rs: what is read from the environment. The flag is
-- `cfg!(debug_assertions)`; a sampling ratio is the bits of an `f64`, which `str::parse` reads.
pub mod Lists
mod Tests
use modular_rust_platform.Base.{
  ℕ, String, Bool, true, false, ◌||◌, Option, none, some, List, [], ◌∷◌, map, if◌then◌else◌,
}
use modular_rust_platform.Base.Text.{
  Text, codes, text_eq, trim, split, eq_ignore_ascii_case, to_ascii_lowercase,
}
use modular_rust_platform.Di.Context.{Environment}
use modular_rust_platform.Launcher.Observability.{
  OtlpProtocol, grpc, http_protobuf, ObservabilityConfig, f64_one,
}

-- `environment.get(key).unwrap_or_default()`
unfoldable pub get_or_default : Environment → String → Text
get_or_default environment key = elim (environment key) [ none ↦ [] | some value ↦ codes value ]

unfoldable pub is_dev_environment : Bool → Environment → Bool
unfolding get_or_default eq_ignore_ascii_case
is_dev_environment debug_assertions environment =
    debug_assertions
    || eq_ignore_ascii_case (get_or_default environment "RUST_ENV") (codes "development")

-- `.filter(|s| !s.is_empty())`
unfoldable pub non_empty : List Text → List Text
non_empty [] = []
non_empty ([] ∷ pieces) = non_empty pieces
non_empty ((c ∷ s) ∷ pieces) = (c ∷ s) ∷ non_empty pieces

unfoldable pub parse_csv : Text → List Text
unfolding split trim non_empty
parse_csv value = non_empty (map trim (split b',' value))

unfoldable pub parse_csv_env : Environment → String → List Text
unfolding parse_csv get_or_default
parse_csv_env environment key = parse_csv (get_or_default environment key)

abbrev protocol_of : Text → OtlpProtocol
protocol_of name =
    if text_eq name (codes "http/protobuf") || text_eq name (codes "http")
    then http_protobuf
    else grpc

unfoldable pub is_true : Environment → String → Bool
unfolding get_or_default eq_ignore_ascii_case
is_true environment key = eq_ignore_ascii_case (get_or_default environment key) (codes "true")

-- `environment.get(key).unwrap_or_else(..)`
unfoldable pub get_or : Environment → String → String → String
get_or environment key default = elim (environment key) [ none ↦ default | some value ↦ value ]

-- `environment.get(key).and_then(|v| v.parse().ok()).unwrap_or(..)`
abbrev parsed_or : (String → Option ℕ) → Option String → ℕ → ℕ
parsed_or parse none default = default
parsed_or parse (some v) default = elim (parse v) [ none ↦ default | some ratio ↦ ratio ]

unfoldable pub observability_config_from_env :
    (String → Option ℕ) → Environment → ObservabilityConfig
unfolding get_or_default get_or is_true to_ascii_lowercase text_eq
observability_config_from_env parse_f64 environment = record {
  enabled = is_true environment "MRP_OTEL_ENABLED";
  protocol =
      protocol_of (to_ascii_lowercase (get_or_default environment "OTEL_EXPORTER_OTLP_PROTOCOL"));
  service_name = get_or environment "OTEL_SERVICE_NAME" "stano-app";
  service_version = get_or environment "OTEL_SERVICE_VERSION" "0.0.0";
  resource_attributes = [];
  trace_sample_ratio = parsed_or parse_f64 (environment "OTEL_TRACES_SAMPLER_ARG") f64_one;
  log_filter = get_or environment "RUST_LOG" "info";
  metrics_enabled = is_true environment "MRP_OTEL_METRICS_ENABLED";
  prometheus_enabled = is_true environment "MRP_PROMETHEUS_ENABLED";
  http_logging_enabled = is_true environment "MRP_HTTP_LOGGING_ENABLED";
  process_metrics_enabled = is_true environment "MRP_PROCESS_METRICS_ENABLED";
}
