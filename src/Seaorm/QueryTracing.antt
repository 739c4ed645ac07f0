-- ===== src/Seaorm/QueryTracing.antt =====
-- crates/stano-seaorm/src/query_tracing.rs: the configuration, the operation of a statement, and what
-- the metric callback emits for a query. Times are in nanoseconds; `now` is what `SystemTime::now`
-- returns, counted from the earliest time that a `SystemTime` holds.
pub mod Bounds
pub mod Instruments
mod Tests
use modular_rust_platform.Base.{
  ℕ, ◌+◌, ◌-◌, ◌*◌, ◌^◌, ◌≤◌, String, Bool, true, false, ◌&&◌, Option, none, some, List, [], ◌∷◌,
  ltb, leb, ◌==◌, if◌then◌else◌, ◌≡◌, refl, ◌↔◌, arith, Bool-cases, ap,
}
use modular_rust_platform.Base.Text.{
  Text, codes, text_eq, trim_start, is_whitespace, to_ascii_uppercase, eq_ignore_ascii_case,
}
use modular_rust_platform.Di.Context.{Environment}

pub record QueryTracingConfig : Type 0 where
  pub enabled : Bool
  pub include_statement : Bool
  pub slow_query_threshold : ℕ

abbrev pub millis : ℕ → ℕ
millis n = n * 1000000

unfoldable pub defaults : QueryTracingConfig
defaults = record { enabled = false; include_statement = true; slow_query_threshold = millis 200 }

unfoldable pub digits_value : Text → ℕ → Option ℕ
digits_value [] n = some n
digits_value (c ∷ t) n =
    let rest = digits_value t (n * 10 + (c - 48)) in if leb 48 c && leb c 57 then rest else none

abbrev pub unsigned : Text → Option ℕ
unsigned [] = none
unsigned (c ∷ t) = digits_value (c ∷ t) 0

abbrev pub signed : Text → Option ℕ
signed [] = none
signed (c ∷ t) = if c == b'+' then unsigned t else unsigned (c ∷ t)

-- `str::parse::<u64>`: digits behind at most one `+`, below 2 ^ 64.
unfoldable pub parse_u64 : Text → Option ℕ
unfolding digits_value
parse_u64 t = elim (signed t) [ none ↦ none | some n ↦ if ltb n (2 ^ 64) then some n else none ]

abbrev pub flag : Option String → Bool → Bool
flag none default = default
flag (some v) default = eq_ignore_ascii_case (codes v) (codes "true")

abbrev pub parsed_or_default : Option ℕ → ℕ
parsed_or_default none = defaults.slow_query_threshold
parsed_or_default (some n) = millis n

abbrev pub threshold : Option String → ℕ
threshold none = defaults.slow_query_threshold
threshold (some v) = parsed_or_default (parse_u64 (codes v))

unfoldable pub query_tracing_config_from_env : Environment → QueryTracingConfig
unfolding defaults parse_u64 eq_ignore_ascii_case
query_tracing_config_from_env environment = record {
  enabled = flag (environment "MRP_DB_TRACING_ENABLED") defaults.enabled;
  include_statement =
      flag (environment "MRP_DB_TRACING_INCLUDE_STATEMENT") defaults.include_statement;
  slow_query_threshold = threshold (environment "MRP_DB_SLOW_QUERY_MS");
}

abbrev pub known_operations : List Text
known_operations =
    codes "SELECT"
    ∷ codes "INSERT"
    ∷ codes "UPDATE"
    ∷ codes "DELETE"
    ∷ codes "BEGIN"
    ∷ codes "COMMIT"
    ∷ codes "ROLLBACK"
    ∷ []

pub take_token : Text → Text
unfolding is_whitespace
take_token [] = []
take_token (c ∷ t) = let rest = take_token t in if is_whitespace c then [] else c ∷ rest

-- `split_whitespace().next()`
pub first_token : Text → Option Text
unfolding trim_start take_token
first_token sql = elim (take_token (trim_start sql)) [ [] ↦ none | c ∷ t ↦ some (c ∷ t) ]

pub find_operation : Text → List Text → Option Text
unfolding text_eq
find_operation token [] = none
find_operation token (op ∷ ops) =
    let rest = find_operation token ops in if text_eq op token then some op else rest

pub parse_operation : Text → Option Text
unfolding first_token find_operation to_ascii_uppercase
parse_operation sql = elim (first_token sql) [
  | none ↦ none
  | some token ↦ find_operation (to_ascii_uppercase token) known_operations
]

-- The part of `sea_orm::metric::Info` that is read.
pub record Info : Type 0 where
  pub sql : Text
  pub elapsed : ℕ
  pub failed : Bool

pub data Level : Type 0 where
  error warn debug : Level

-- The histogram entry, the span and the event of one query.
pub record Emitted : Type 0 where
  pub recorded : ℕ
  pub operation : Text
  pub span_statement : Option Text
  pub span_start : ℕ
  pub span_end : ℕ
  pub span_error : Bool
  pub event_level : Level
  pub event_statement : Text

abbrev level_of : Bool → ℕ → ℕ → Level
level_of failed elapsed threshold =
    if failed then error else if leb threshold elapsed then warn else debug

abbrev unwrap_or : Option Text → Text → Text
unwrap_or none default = default
unwrap_or (some t) default = t

-- What the gauge of the pool observes, for its size and the number of its idle connections: those idle
-- and those used. The subtraction saturates.
unfoldable pub pool_gauge : ℕ → ℕ → ℕ × ℕ
pool_gauge size num_idle = (num_idle, size - num_idle)

unfoldable pub query_tracing_callback : QueryTracingConfig → ℕ → Info → Emitted
query_tracing_callback config now info = record {
  recorded = info.elapsed;
  operation = unwrap_or (parse_operation info.sql) (codes "UNKNOWN");
  span_statement = if config.include_statement then some info.sql else none;
  span_start = if leb info.elapsed now then now - info.elapsed else now;
  span_end = now;
  span_error = info.failed;
  event_level = level_of info.failed info.elapsed config.slow_query_threshold;
  event_statement = if config.include_statement then info.sql else [];
}

-- If statements are not included, then what is emitted for a query depends on its text only through its
-- operation.
pub query_tracing_callback-statement :
    (config : QueryTracingConfig) (now elapsed : ℕ) (failed : Bool) (a b : Text)
    → config.include_statement ≡ false
    → parse_operation a ≡ parse_operation b
    → query_tracing_callback config now (record { sql = a; elapsed = elapsed; failed = failed })
      ≡ query_tracing_callback config now (record { sql = b; elapsed = elapsed; failed = failed })
unfolding query_tracing_callback
query_tracing_callback-statement config now elapsed failed a b hidden same =
    rw hidden (rw same refl)

-- A query is logged as an error exactly if it failed, and as a warning exactly if it succeeded and took
-- at least the threshold; its span does not end before it starts.
pub query_tracing_callback-level :
    (config : QueryTracingConfig) (now : ℕ) (info : Info)
    → ((query_tracing_callback config now info).event_level ≡ error ↔ (info.failed ≡ true))
      × (((query_tracing_callback config now info).event_level ≡ warn)
          ↔ ((info.failed ≡ false) × (config.slow_query_threshold ≤ info.elapsed)))
      × ((query_tracing_callback config now info).span_start
          ≤ (query_tracing_callback config now info).span_end)
unfolding query_tracing_callback
query_tracing_callback-level config now info = ground arith
