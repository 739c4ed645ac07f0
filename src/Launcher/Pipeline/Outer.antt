-- ===== src/Launcher/Pipeline/Outer.antt =====
-- The application as its outer layers around the layers behind the authorization.
use modular_rust_platform.Base.{
  String, Bool, ◌||◌, Option, none, some, List, [], ◌∷◌, ◌++◌, ◌≡◌, refl, ap, ◌∙◌,
}
use modular_rust_platform.Base.Text.{is_some}
use modular_rust_platform.Security.Jwt.{JsonWebToken}
use modular_rust_platform.Security.Builder.{Matchit, Chain}
use modular_rust_platform.Security.Hook.{PostAuthorizationHook}
use modular_rust_platform.Launcher.Responses.{Headers, add_security_headers, insert_header}
use modular_rust_platform.Launcher.Server.{
  BootstrapConfig, Middleware, http_metrics, timeout, request_logging, trace, error_logging,
  catch_panic, compression, set_request_id, propagate_request_id, body_limit, post_authorization,
  authorization, security_headers, cors, layers, stack_of, layer_if,
}
use modular_rust_platform.Launcher.Cors.{HeaderValues}
use modular_rust_platform.Launcher.Pipeline.Stack.{Arrival, World, Run, Service, Tower}
use modular_rust_platform.Launcher.Pipeline.{wrap, wrap_all, app}

abbrev pub HasSecurityHeaders : Headers → Type 0
HasSecurityHeaders h =
    (h "x-content-type-options" ≡ some "nosniff")
    × (h "x-frame-options" ≡ some "DENY")
    × (h "strict-transport-security" ≡ some "max-age=31536000; includeSubDomains")

pub add_security_headers-HasSecurityHeaders :
    (h : Headers) → HasSecurityHeaders (add_security_headers h)
unfolding add_security_headers insert_header
add_security_headers-HasSecurityHeaders h = (refl, refl, refl)

pub add_security_headers-request_id :
    (h : Headers) → add_security_headers h "x-request-id" ≡ h "x-request-id"
unfolding add_security_headers insert_header
add_security_headers-request_id h = refl

-- The layers behind the hook.
abbrev pub inner_layers : BootstrapConfig → List Middleware
inner_layers config =
    layer_if (config.observability.metrics_enabled || config.observability.prometheus_enabled)
      http_metrics
    ++ timeout ∷ []
    ++ layer_if config.observability.http_logging_enabled request_logging
    ++ trace ∷ error_logging ∷ catch_panic ∷ compression ∷ set_request_id ∷ propagate_request_id
      ∷ body_limit ∷ []

module _ (values : HeaderValues) (lib : Matchit) {E S : Type 0} (jwt : JsonWebToken E)
    (tower : Tower values E S) (trace_id : Arrival E → String) (config : BootstrapConfig)
    (chain : Option (Chain lib E))
    (hook : Option (PostAuthorizationHook (Arrival E × World S) (Run S))) where
  abbrev wrap_here : Middleware → Service E S → Service E S
  wrap_here = wrap values lib jwt tower trace_id config chain hook

  abbrev wrap_all_here : List Middleware → Service E S → Service E S
  wrap_all_here = wrap_all values lib jwt tower trace_id config chain hook

  pub wrap_all-append :
      (xs ys : List Middleware) (s : Service E S)
      → wrap_all_here (xs ++ ys) s ≡ wrap_all_here ys (wrap_all_here xs s)
  unfolding wrap_all
  wrap_all-append [] ys s = refl
  wrap_all-append (x ∷ xs) ys s = wrap_all-append xs ys (wrap_here x s)

  wrap_all-hook :
      (s : Service E S)
      → wrap_all_here (layer_if (is_some hook) post_authorization) s
        ≡ wrap_here post_authorization s
  unfolding wrap_all wrap
  wrap_all-hook s =
      elim hook
        as (λ k.
          wrap_all values lib jwt tower trace_id config chain k
            (layer_if (is_some k) post_authorization) s
          ≡ wrap values lib jwt tower trace_id config chain k post_authorization s) [
            | none ↦ refl
            | some h ↦ refl
          ]

  wrap_all-chain :
      (s : Service E S)
      → wrap_all_here (layer_if (is_some chain) authorization) s ≡ wrap_here authorization s
  unfolding wrap_all wrap
  wrap_all-chain s =
      elim chain
        as (λ c.
          wrap_all values lib jwt tower trace_id config c hook (layer_if (is_some c) authorization)
            s
          ≡ wrap values lib jwt tower trace_id config c hook authorization s) [
            | none ↦ refl
            | some c ↦ refl
          ]

  -- The layers from the trace to the body limit.
  abbrev pub upper_layers : List Middleware
  upper_layers =
      trace ∷ error_logging ∷ catch_panic ∷ compression ∷ set_request_id ∷ propagate_request_id
      ∷ body_limit ∷ []

  abbrev pub wrap_if : Bool → Middleware → Service E S → Service E S
  wrap_if on m = wrap_all_here (layer_if on m)

  pub inner_lem :
      (router : Service E S)
      → wrap_all_here (inner_layers config) router
        ≡ wrap_all_here upper_layers (
            wrap_if config.observability.http_logging_enabled request_logging (
              wrap_here timeout (
                wrap_if
                  (config.observability.metrics_enabled || config.observability.prometheus_enabled)
                  http_metrics
                  router)))
  unfolding wrap_all
  inner_lem router =
      let metrics =
        layer_if (config.observability.metrics_enabled || config.observability.prometheus_enabled)
          http_metrics in
      let logging = layer_if config.observability.http_logging_enabled request_logging in
      wrap_all-append (metrics ++ timeout ∷ [] ++ logging) upper_layers router
      ∙ ap (λ (s : Service E S). wrap_all_here upper_layers s)
          (wrap_all-append (metrics ++ timeout ∷ []) logging router
            ∙ ap (λ (s : Service E S). wrap_all_here logging s)
                (wrap_all-append metrics (timeout ∷ []) router))

  -- What the handlers, the hook and the inner layers are to the authorization.
  abbrev pub behind : Service E S → Service E S
  behind router = wrap_here post_authorization (wrap_all_here (inner_layers config) router)

  pub app_lem :
      (router : Service E S)
      → app values lib jwt tower trace_id config chain hook router
        ≡ wrap_here cors (wrap_here security_headers (wrap_here authorization (behind router)))
  unfolding app layers stack_of
  app_lem router =
      wrap_all-append
        (inner_layers config
          ++ layer_if (is_some hook) post_authorization
          ++ layer_if (is_some chain) authorization)
        (security_headers ∷ cors ∷ []) router
      ∙ ap (λ (s : Service E S). wrap_here cors (wrap_here security_headers s))
          (wrap_all-append (inner_layers config ++ layer_if (is_some hook) post_authorization)
              (layer_if (is_some chain) authorization) router
            ∙ wrap_all-chain _
            ∙ ap (λ (s : Service E S). wrap_here authorization s)
                (wrap_all-append (inner_layers config) (layer_if (is_some hook) post_authorization)
                    router
                  ∙ wrap_all-hook _))
