-- ===== src/Seaorm/QueryTracing/Tests.antt =====
-- A slow select and a statement that is not recognised.
use modular_rust_platform.Base.{
  none, List, [], ◌∷◌, str_eq, if◌then◌else◌, true, false, some, ◌≡◌, refl,
}
use modular_rust_platform.Base.Text.{codes, text_eq, trim_start, is_whitespace, to_ascii_uppercase}
use modular_rust_platform.Di.Context.{Environment}
use modular_rust_platform.Seaorm.QueryTracing.Bounds.{
  Threshold, query_tracing_config_from_env-Threshold,
}
use modular_rust_platform.Seaorm.QueryTracing.Instruments.{
  Event, set_meter_provider, set_tracer_provider, Providers, query, start, happen_all, emitted_by,
  happen_all-first,
}
use modular_rust_platform.Seaorm.QueryTracing.{
  query_tracing_config_from_env, QueryTracingConfig, Info, query_tracing_callback,
  query_tracing_callback-statement, parse_operation, first_token, find_operation, take_token,
  parse_u64, digits_value,
}

abbrev private_config : QueryTracingConfig
private_config = record { enabled = true; include_statement = false; slow_query_threshold = 5 }

abbrev slow_select : Info
slow_select = record { sql = codes " select 1"; elapsed = 7; failed = false }

parse_operation-select : parse_operation (codes " select 1") ≡ some (codes "SELECT")
unfolding parse_operation first_token find_operation take_token text_eq trim_start is_whitespace
    to_ascii_uppercase
parse_operation-select = refl

parse_operation-other : parse_operation (codes "Select 2") ≡ some (codes "SELECT")
unfolding parse_operation first_token find_operation take_token text_eq trim_start is_whitespace
    to_ascii_uppercase
parse_operation-other = refl

same-operation : parse_operation (codes " select 1") ≡ parse_operation (codes "Select 2")
unfolding parse_operation first_token find_operation take_token text_eq trim_start is_whitespace
    to_ascii_uppercase
same-operation = refl

parse_u64-plus : parse_u64 (codes "+150") ≡ some 150
unfolding parse_u64 digits_value
parse_u64-plus = refl

query_tracing_callback-statement_example :
    query_tracing_callback private_config 100 slow_select
    ≡ query_tracing_callback private_config 100 (record slow_select { sql = codes "Select 2" })
query_tracing_callback-statement_example =
    query_tracing_callback-statement private_config 100 7 false (codes " select 1")
      (codes "Select 2") refl same-operation

abbrev slow_after : Environment
slow_after key = if str_eq key "MRP_DB_SLOW_QUERY_MS" then some "+150" else none

threshold-read : (query_tracing_config_from_env slow_after).slow_query_threshold ≡ 150000000
unfolding query_tracing_config_from_env parse_u64 digits_value
threshold-read = refl

query_tracing_config_from_env-Threshold_example :
    Threshold (some "+150") (query_tracing_config_from_env slow_after).slow_query_threshold
query_tracing_config_from_env-Threshold_example = query_tracing_config_from_env-Threshold slow_after

-- Telemetry is set up before the first query and replaced after it; there is no tracer provider at first.
abbrev replaced : List Event
replaced =
    set_meter_provider 1
    ∷ query 100 slow_select
    ∷ set_tracer_provider 2
    ∷ query 200 slow_select
    ∷ []

abbrev bound : Providers
bound = record { meter = 1; tracer = 0 }

happen_all-first_example :
    ((happen_all private_config replaced start).gauges ≡ 1 ∷ [])
    × ((happen_all private_config replaced start).records
        ≡ emitted_by private_config (some bound) replaced)
happen_all-first_example = happen_all-first private_config replaced
