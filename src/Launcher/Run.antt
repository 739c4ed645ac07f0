-- ===== src/Launcher/Run.antt =====
-- `run` of crates/stano-launcher/src/server.rs as the stages it goes through, with its early returns. Binding and
-- serving are parameters: what `TcpListener::bind` and `axum::serve` return. An error drops the guard.
pub mod Shutdown
mod Tests
use modular_rust_platform.Base.{
  ℕ, String, Bool, true, false, ◌&&◌, Option, none, some, List, [], ◌∷◌, ◌++◌, Result, ok, err,
  str_eq, if◌then◌else◌,
}
use modular_rust_platform.Launcher.Observability.{
  Kind, Failure, OtelGuard, Exporters, init_observability, shutdown, drop_guard,
}
use modular_rust_platform.Launcher.Server.{BootstrapConfig, Middleware, layers}

pub data SecurityScheme : Type 0 where
  http_bearer : String → SecurityScheme
  other_scheme : String → SecurityScheme

-- The schemes of an OpenAPI document, if it has components.
abbrev pub OpenApi : Type 0
OpenApi = Option (List (String × SecurityScheme))

-- `Components::add_security_scheme`, an insertion into a map.
unfoldable pub add_security_scheme :
    String → SecurityScheme → List (String × SecurityScheme) → List (String × SecurityScheme)
add_security_scheme name scheme [] = (name, scheme) ∷ []
add_security_scheme name scheme ((key, old) ∷ rest) =
    let later = add_security_scheme name scheme rest in
    if str_eq key name then (key, scheme) ∷ rest else (key, old) ∷ later

abbrev get_or_insert_with : OpenApi → List (String × SecurityScheme)
get_or_insert_with none = []
get_or_insert_with (some schemes) = schemes

unfoldable pub register_bearer_auth_scheme : OpenApi → OpenApi
unfolding add_security_scheme
register_bearer_auth_scheme openapi =
    some (add_security_scheme "bearerAuth" (http_bearer "JWT") (get_or_insert_with openapi))

-- What is merged into the router.
pub data Merged : Type 0 where
  collected_routes extra_routes metrics_route : Merged
  swagger_ui : OpenApi → Merged

pub data Stage : Type 0 where
  custom_metrics_registered : Stage
  composed : List Merged → List Middleware → Stage
  listening : ℕ → Stage
  served : Stage
  guard_shut_down guard_dropped : List Kind → Stage

pub data RunError : Type 0 where
  observability_failed : Failure → RunError
  bind_failed serve_failed : String → RunError

abbrev if_true : {A : Type 0} → Bool → A → List A
if_true false a = []
if_true true a = a ∷ []

unfoldable pub merged_routers : BootstrapConfig → OtelGuard → OpenApi → List Merged
unfolding register_bearer_auth_scheme
merged_routers config guard openapi =
    collected_routes
    ∷ extra_routes
    ∷ (if_true config.enable_swagger (swagger_ui (register_bearer_auth_scheme openapi))
        ++ if_true guard.prometheus_registry metrics_route)

-- The last statements, for what `shutdown` of the guard did and returned; it drops the guard.
unfoldable pub finish_run :
    OtelGuard → List Kind × Result (Unit {0}) Failure → List Stage × Result (Unit {0}) RunError
unfolding drop_guard
finish_run guard (shut, ok _) =
    (guard_shut_down shut ∷ guard_dropped (drop_guard guard) ∷ [], ok tt)
finish_run guard (shut, err e) =
    (guard_shut_down shut ∷ guard_dropped (drop_guard guard) ∷ [], err (observability_failed e))

abbrev pub after :
    List Stage → List Stage × Result (Unit {0}) RunError → List Stage × Result (Unit {0}) RunError
after stages rest = (stages ++ rest.0, rest.1)

module _ (bind : ℕ → Result (Unit {0}) String) (serve : Result (Unit {0}) String)
    (stop : Kind → Result (Unit {0}) String) where
  -- From the binding of the port on.
  unfoldable pub serve_until_shutdown : ℕ → OtelGuard → List Stage × Result (Unit {0}) RunError
  unfolding finish_run shutdown drop_guard
  serve_until_shutdown port guard = elim (bind port) [
    | err e ↦ (guard_dropped (drop_guard guard) ∷ [], err (bind_failed e))
    | ok _ ↦ after (listening port ∷ []) (elim serve [
      | err e ↦ (guard_dropped (drop_guard guard) ∷ [], err (serve_failed e))
      | ok _ ↦ after (served ∷ []) (finish_run guard (shutdown stop guard))
    ])
  ]

  -- With a guard. The flags say which of the last three arguments of `run` are `Some`.
  unfoldable pub run_with :
      BootstrapConfig
      → OpenApi
      → Bool
      → Bool
      → Bool
      → OtelGuard
      → List Stage × Result (Unit {0}) RunError
  unfolding merged_routers layers serve_until_shutdown
  run_with config openapi has_authorization has_hook has_metrics guard =
      after
        (if_true (guard.prometheus_registry && has_metrics) custom_metrics_registered
          ++ composed (merged_routers config guard openapi)
              (layers config has_hook has_authorization)
            ∷ [])
        (serve_until_shutdown config.port guard)

  unfoldable pub run :
      Exporters
      → BootstrapConfig
      → OpenApi
      → Bool
      → Bool
      → Bool
      → List Stage × Result (Unit {0}) RunError
  unfolding run_with init_observability
  run exporters config openapi has_authorization has_hook has_metrics =
      elim (init_observability exporters config.observability).1 [
        | err e ↦ ([], err (observability_failed e))
        | ok guard ↦ run_with config openapi has_authorization has_hook has_metrics guard
      ]
