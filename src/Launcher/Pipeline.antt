-- ===== src/Launcher/Pipeline.antt =====
-- The application that `run` of crates/stano-launcher/src/server.rs serves: the router inside the layers, with
-- the middleware of crates/stano-axum/src/middleware and of crates/stano-launcher/src/observability.rs. A
-- service takes a request through a world: the clock, the meter, the logs, the failure counter and the
-- state of the handlers. Its future ends with a response, unwinds, or is not finished at the deadline of
-- the timeout. The tower layers are the fields of a parameter, with what their documentation says.
pub mod Stack
pub mod Outer
pub mod Refused
pub mod Replies
pub mod RequestId
pub mod Answers
pub mod Plain
mod Tests
use modular_rust_platform.Base.{ℕ, ◌-◌, ◌*◌, String, Option, none, some, List, [], ◌∷◌, ◌≡◌, ◌⊎◌}
use modular_rust_platform.Base.Text.{is_some}
use modular_rust_platform.Errors.Api.{Response, StatusCode, ApiError, logged_error}
use modular_rust_platform.Security.Jwt.{JsonWebToken}
use modular_rust_platform.Security.Builder.{Matchit, resolves, unwinds, hangs, Chain}
use modular_rust_platform.Security.Layer.{Request, Served, validation, call}
use modular_rust_platform.Security.Hook.{
  PostAuthorizationHook, layer, RequestLog, http_request_logging_middleware,
}
use modular_rust_platform.Launcher.Responses.{
  Headers, PanicPayload, add_security_headers, handle_panic,
}
use modular_rust_platform.Launcher.Metrics.{Meter, Pending, before_next, after_next}
use modular_rust_platform.Launcher.Server.{
  BootstrapConfig, Middleware, http_metrics, timeout, request_logging, trace, error_logging,
  catch_panic, compression, set_request_id, propagate_request_id, body_limit, post_authorization,
  authorization, security_headers, cors, layers,
}
use modular_rust_platform.Launcher.Cors.{HeaderValues, cors_layer}
use modular_rust_platform.Launcher.Pipeline.Stack.{
  Arrival, Completion, replied, unwound, unfinished, ErrorLog, World, Run, Service, Tower,
}

module _ {S : Type 0} where
  -- What `record_http_metrics` has behind its `await` runs for a response only.
  unfoldable pub after_metrics : Pending → Run S → Run S
  unfolding after_next
  after_metrics started (replied r h, w) = (
    replied r h,
    record w { meter = after_next started (w.now - started.start) r.status w.meter },
  )
  after_metrics started (unwound p, w) = (unwound p, w)
  after_metrics started (unfinished, w) = (unfinished, w)

  unfoldable pub with_security_headers : Run S → Run S
  unfolding add_security_headers
  with_security_headers (replied r h, w) = (replied r (add_security_headers h), w)
  with_security_headers (unwound p, w) = (unwound p, w)
  with_security_headers (unfinished, w) = (unfinished, w)

  abbrev pub count_failure : Option (String × StatusCode) → World S → World S
  count_failure none w = w
  count_failure (some failure) w = record w { counted = failure ∷ w.counted }

  -- `handle_panic`, as `CatchPanicLayer` calls it.
  unfoldable pub on_panic : Headers → PanicPayload → World S → Run S
  unfolding handle_panic
  on_panic json_headers payload w =
      let (response, message) = handle_panic payload in
      (replied response json_headers, record w { panics = message ∷ w.panics })

module _ {E S : Type 0} where
  unfoldable pub record_http_metrics : Service E S → Service E S
  unfolding before_next after_metrics
  record_http_metrics next (a, w) =
      let (started, meter) = before_next a.request.method a.matched_path w.now w.meter in
      after_metrics started (next (a, record w { meter = meter }))

  unfoldable pub after_request : String → Arrival E → ℕ → Run S → Run S
  unfolding http_request_logging_middleware
  after_request trace_id a start (replied r h, w) =
      let (response, line) =
        http_request_logging_middleware start w.now a.uri trace_id (λ req. r) a.request in
      (replied response h, record w { requests = line ∷ w.requests })
  after_request trace_id a start (unwound p, w) = (unwound p, w)
  after_request trace_id a start (unfinished, w) = (unfinished, w)

  -- `http_request_logging_middleware`, for the trace of the span around it.
  unfoldable pub log_requests : (Arrival E → String) → Service E S → Service E S
  unfolding after_request
  log_requests trace_id next (a, w) = after_request (trace_id a) a w.now (next (a, w))

  unfoldable pub log_error : Arrival E → Option ApiError → World S → World S
  log_error a none w = w
  log_error a (some e) w = record w {
    errors =
        record { method = a.request.method; uri = a.uri; request_id = a.request_id; error = e }
        ∷ w.errors;
  }

  unfoldable pub after_error : Arrival E → Run S → Run S
  unfolding logged_error log_error
  after_error a (replied r h, w) = (replied r h, log_error a (logged_error r) w)
  after_error a (unwound p, w) = (unwound p, w)
  after_error a (unfinished, w) = (unfinished, w)

  unfoldable pub error_logging_middleware : Service E S → Service E S
  unfolding after_error
  error_logging_middleware next (a, w) = after_error a (next (a, w))

  -- The end of the authorization, for what its middleware did with the request.
  unfoldable pub admit : Headers → Service E S → Arrival E × World S → Served E → Run S
  admit json_headers inner (a, w) served = elim served.reached [
    | some req ↦ inner (record a { request = req }, w)
    | none ↦ (replied served.response json_headers, count_failure served.counted w)
  ]

-- `call` answers a request that it lets through with what the inner service answers; the response here
-- stands for it and is not used.
abbrev pub unused : Response
unused = record { status = 200; body = none; error = none }

module _ (values : HeaderValues) (lib : Matchit) {E S : Type 0} (jwt : JsonWebToken E)
    (tower : Tower values E S) (trace_id : Arrival E → String) where
  -- The authorization, which awaits the claims validator: its future is outside the timeout and the panic
  -- handler, so that it can hang and unwind.
  unfoldable pub authorize : Chain lib E → Service E S → Service E S
  unfolding call validation admit
  authorize chain inner (a, w) = elim (validation lib jwt chain a.request) [
    | resolves ↦
        admit tower.json_headers inner (a, w) (call lib jwt chain (λ req. unused) a.request)
    | unwinds payload ↦ (unwound payload, w)
    | hangs ↦ (unfinished, w)
  ]

  module _ (config : BootstrapConfig) (chain : Option (Chain lib E))
      (hook : Option (PostAuthorizationHook (Arrival E × World S) (Run S))) where
    -- One call of `layer` or `route_layer`.
    unfoldable pub wrap : Middleware → Service E S → Service E S
    unfolding record_http_metrics log_requests error_logging_middleware on_panic
        with_security_headers authorize layer cors_layer
    wrap http_metrics inner = tower.route_layer record_http_metrics inner
    wrap timeout inner = tower.timeout 408 300 inner
    wrap request_logging inner = log_requests trace_id inner
    wrap trace inner = tower.trace inner
    wrap error_logging inner = error_logging_middleware inner
    wrap catch_panic inner = tower.catch_panic (on_panic tower.json_headers) inner
    wrap compression inner = tower.compression inner
    wrap set_request_id inner = tower.set_request_id inner
    wrap propagate_request_id inner = tower.propagate_request_id inner
    wrap body_limit inner = tower.body_limit (10 * 1024 * 1024) inner
    wrap post_authorization inner = elim hook [ none ↦ inner | some h ↦ layer h inner ]
    wrap authorization inner = elim chain [ none ↦ inner | some c ↦ authorize c inner ]
    wrap security_headers inner = λ aw. with_security_headers (inner aw)
    wrap cors inner = tower.cors (cors_layer values config) inner

    -- The first layer is the innermost.
    unfoldable pub wrap_all : List Middleware → Service E S → Service E S
    unfolding wrap
    wrap_all [] inner = inner
    wrap_all (m ∷ ms) inner = wrap_all ms (wrap m inner)

    unfoldable pub app : Service E S → Service E S
    unfolding wrap_all layers
    app router = wrap_all (layers config (is_some hook) (is_some chain)) router
