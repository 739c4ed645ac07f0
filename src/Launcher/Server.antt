-- ===== src/Launcher/Server.antt =====
-- crates/stano-launcher/src/server.rs: the configuration of `run`, and the middleware that it puts around the
-- router.
use modular_rust_platform.Base.{ℕ, Bool, true, false, ◌||◌, List, [], ◌∷◌, ◌++◌}
use modular_rust_platform.Base.Text.{Text}
use modular_rust_platform.Launcher.Observability.{ObservabilityConfig}

pub record BootstrapConfig : Type 0 where
  pub port : ℕ
  pub cors_origins : List Text
  pub cors_origin_suffixes : List Text
  pub cors_dev_origins : List Text
  pub is_dev : Bool
  pub observability : ObservabilityConfig
  pub enable_swagger : Bool

-- The layers of `run`, from the router outwards.
pub data Middleware : Type 0 where
  http_metrics timeout request_logging trace error_logging catch_panic compression : Middleware
  set_request_id propagate_request_id body_limit post_authorization authorization : Middleware
  security_headers cors : Middleware

abbrev pub layer_if : Bool → Middleware → List Middleware
layer_if false layer = []
layer_if true layer = layer ∷ []

-- The layers, for what is switched on: metrics, request logging, the hook, the authorization.
unfoldable pub stack_of : Bool → Bool → Bool → Bool → List Middleware
stack_of metrics logging hook authorized =
    layer_if metrics http_metrics
    ++ timeout ∷ []
    ++ layer_if logging request_logging
    ++ trace ∷ error_logging ∷ catch_panic ∷ compression ∷ set_request_id ∷ propagate_request_id
      ∷ body_limit ∷ []
    ++ layer_if hook post_authorization
    ++ layer_if authorized authorization
    ++ security_headers ∷ cors ∷ []

-- The calls of `layer` and `route_layer` in their order; each wraps those before it. The flags say
-- whether `post_authorization` and `authorization` are `Some`.
unfoldable pub layers : BootstrapConfig → Bool → Bool → List Middleware
unfolding stack_of
layers config has_hook has_authorization =
    stack_of (config.observability.metrics_enabled || config.observability.prometheus_enabled)
      config.observability.http_logging_enabled has_hook has_authorization
