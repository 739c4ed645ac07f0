-- ===== src/Seaorm/DbConfig.antt =====
-- crates/stano-seaorm/src/db_config.rs: `DbConfig::from_url`. SeaORM's options and `Database::connect` are a
-- parameter, with the text of a failure; durations are in seconds.
use modular_rust_platform.Base.{
  ℕ, String, Bool, false, Option, none, some, Result, ok, err, if◌then◌else◌,
}
use modular_rust_platform.Seaorm.QueryTracing.{QueryTracingConfig}

pub record ConnectOptions : Type 0 where
  pub url : String
  pub max_connections : Option ℕ
  pub min_connections : Option ℕ
  pub connect_timeout : Option ℕ
  pub acquire_timeout : Option ℕ
  pub idle_timeout : Option ℕ
  pub max_lifetime : Option ℕ
  pub sqlx_logging : Bool

pub record Database : Type 1 where
  pub Connection : Type 0
  pub new : String → ConnectOptions
  pub connect : ConnectOptions → Result Connection String

pub data DbConfigError : Type 0 where
  connection_failed : String → DbConfigError

abbrev sized : ConnectOptions → ConnectOptions
sized opt = record opt {
  max_connections = some 100;
  min_connections = some 5;
  connect_timeout = some 30;
  acquire_timeout = some 30;
  idle_timeout = some 600;
  max_lifetime = some 3600;
}

module _ (database : Database) where
  open database use {Connection, new, connect}

  -- A connection, with the configuration of the metric callback that is set on it.
  pub record DbConfig : Type 0 where
    pub connection : Connection
    pub metric_callback : Option QueryTracingConfig

  unfoldable pub from_url : String → QueryTracingConfig → Result DbConfig DbConfigError
  from_url database_url tracing_config =
      let opt = sized (new database_url) in
      let opened =
        connect (if tracing_config.enabled then record opt { sqlx_logging = false } else opt) in
      elim opened [
        | err e ↦ err (connection_failed e)
        | ok connection ↦ ok (record {
          connection = connection;
          metric_callback = if tracing_config.enabled then some tracing_config else none;
        })
      ]
