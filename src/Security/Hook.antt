-- ===== src/Security/Hook.antt =====
-- crates/stano-axum/src/security/post_authorization_hook.rs and
-- crates/stano-axum/src/middleware/request_logging.rs: the middleware between the authorization and the router.
-- A service is the function that answers a request.
use modular_rust_platform.Base.{ℕ, ◌-◌, String}
use modular_rust_platform.Errors.Api.{Response, StatusCode}
use modular_rust_platform.Security.Layer.{Request}

abbrev pub Next : Type 0 → Type 0
Next E = Request E → Response

-- `Q` is a request and `R` what a service answers it with: a response, or what a run of it comes to.
pub record PostAuthorizationHook (Q R : Type 0) : Type 0 where
  pub apply : Q → (Q → R) → R

-- `PostAuthorizationHook::from_fn`, with `into_response` of what the function returns.
pub from_fn : {Q R S : Type 0} → (S → R) → (Q → (Q → R) → S) → PostAuthorizationHook Q R
from_fn into_response f = record { apply = λ req next. into_response (f req next) }

-- `layer`: the hook is called with the request and the service that it wraps.
unfoldable pub layer : {Q R : Type 0} → PostAuthorizationHook Q R → (Q → R) → Q → R
layer hook inner req = hook.apply req inner

-- A record in the log.
pub record RequestLog : Type 0 where
  pub method : String
  pub uri : String
  pub status : StatusCode
  pub latency_ms : ℕ
  pub trace_id : String

-- The times are in milliseconds; `uri` is the request's, and `trace_id` that of the span around the
-- middleware.
unfoldable pub http_request_logging_middleware :
    {E : Type 0} → ℕ → ℕ → String → String → Next E → Request E → Response × RequestLog
http_request_logging_middleware start now uri trace_id next req =
    let response = next req in
    (
      response,
      record {
        method = req.method;
        uri = uri;
        status = response.status;
        latency_ms = now - start;
        trace_id = trace_id;
      },
    )
