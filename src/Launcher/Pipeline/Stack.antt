-- ===== src/Launcher/Pipeline/Stack.antt =====
-- A service of crates/stano-launcher/src/server.rs, and the layers of tower-http that `run` configures. A layer is a
-- parameter; its laws are what its documentation says of the service that it wraps.
use modular_rust_platform.Base.{ℕ, String, Option, none, some, List, [], ◌∷◌, ◌≡◌, ◌≢◌, ◌⊎◌, In}
use modular_rust_platform.Errors.Api.{Response, StatusCode, ApiError}
use modular_rust_platform.Security.Layer.{Request}
use modular_rust_platform.Security.Hook.{RequestLog}
use modular_rust_platform.Launcher.Responses.{Headers, PanicPayload}
use modular_rust_platform.Launcher.Metrics.{Meter}
use modular_rust_platform.Launcher.Cors.{HeaderValues, CorsLayer}

-- A request on its way through the layers: its `x-request-id` header, its URI, and the `MatchedPath`.
pub record Arrival (E : Type 0) : Type 0 where
  pub request : Request E
  pub request_id : Option String
  pub uri : String
  pub matched_path : Option String

-- How a future ends: with a response, by unwinding, or not before the deadline.
pub data Completion : Type 0 where
  replied : Response → Headers → Completion
  unwound : PanicPayload → Completion
  unfinished : Completion

-- What `error_logging_middleware` logs.
pub record ErrorLog : Type 0 where
  pub method : String
  pub uri : String
  pub request_id : Option String
  pub error : ApiError

-- `counted` is the failure counter of the authorization, `panics` what `handle_panic` logs, `state` what the
-- handlers and the hook keep.
pub record World (S : Type 0) : Type 0 where
  pub now : ℕ
  pub meter : Meter
  pub requests : List RequestLog
  pub errors : List ErrorLog
  pub panics : List String
  pub counted : List (String × StatusCode)
  pub state : S

abbrev pub Run : Type 0 → Type 0
Run S = Completion × World S

abbrev pub Service : Type 0 → Type 0 → Type 0
Service E S = Arrival E × World S → Run S

-- The response headers that the application and its layers own.
abbrev pub own_headers : List String
own_headers =
    "x-request-id" ∷ "x-content-type-options" ∷ "x-frame-options" ∷ "strict-transport-security" ∷ []

-- The second run is the first with other headers at most, but for the named ones.
abbrev pub Kept : {S : Type 0} → List String → Run S → Run S → Type 0
Kept names (replied r h, w) run =
    (changed : Headers) × (run ≡ (replied r changed, w))
    × ((name : String) → In name names → changed name ≡ h name)
Kept names (unwound p, w) run = run ≡ (unwound p, w)
Kept names (unfinished, w) run = run ≡ (unfinished, w)

-- A response that the layer makes, for the inner service is not called.
abbrev pub Refused : {S : Type 0} → StatusCode → World S → Run S → Type 0
Refused status w run =
    (h : Headers) × (h "x-request-id" ≡ none)
    × (run ≡ (replied (record { status = status; body = none; error = none }) h, w))

-- A future that is not finished at the deadline is dropped.
abbrev pub Timed : {S : Type 0} → StatusCode → Run S → Run S → Type 0
Timed status (replied r h, w) run = run ≡ (replied r h, w)
Timed status (unwound p, w) run = run ≡ (unwound p, w)
Timed status (unfinished, w) run = Refused status w run

abbrev pub Caught : {S : Type 0} → (PanicPayload → World S → Run S) → Run S → Run S → Type 0
Caught handler (replied r h, w) run = run ≡ (replied r h, w)
Caught handler (unwound p, w) run = run ≡ handler p w
Caught handler (unfinished, w) run = run ≡ (unfinished, w)

-- An id for a request that comes without one.
abbrev pub with_request_id : {E : Type 0} → String → Arrival E → Arrival E
with_request_id id a = record a {
  request_id = elim a.request_id [ none ↦ some id | some given ↦ some given ];
}

-- `PropagateRequestIdLayer` gives the response the id of the request that it gets, unless the response has
-- one.
abbrev pub propagated : Option String → Option String → Option String
propagated (some own) given = some own
propagated none given = given

abbrev pub Propagated : {S : Type 0} → Option String → Run S → Run S → Type 0
Propagated given (replied r h, w) run =
    (changed : Headers) × (run ≡ (replied r changed, w))
    × (changed "x-request-id" ≡ propagated (h "x-request-id") given)
Propagated given (unwound p, w) run = run ≡ (unwound p, w)
Propagated given (unfinished, w) run = run ≡ (unfinished, w)

-- `json_headers` are those of an `axum::Json` response. `CorsLayer` answers the `OPTIONS` requests itself.
pub record Tower (lib : HeaderValues) (E S : Type 0) : Type 0 where
  pub json_headers : Headers
  pub route_layer : (Service E S → Service E S) → Service E S → Service E S
  pub timeout : StatusCode → ℕ → Service E S → Service E S
  pub trace : Service E S → Service E S
  pub catch_panic : (PanicPayload → World S → Run S) → Service E S → Service E S
  pub compression : Service E S → Service E S
  pub set_request_id : Service E S → Service E S
  pub propagate_request_id : Service E S → Service E S
  pub body_limit : ℕ → Service E S → Service E S
  pub cors : CorsLayer lib → Service E S → Service E S
  pub json_lem : json_headers "x-request-id" ≡ none
  pub route_layer_lem :
      (f : Service E S → Service E S) (inner : Service E S) (a : Arrival E) (w : World S)
      → (route_layer f inner (a, w) ≡ f inner (a, w)) ⊎ (route_layer f inner (a, w) ≡ inner (a, w))
  pub timeout_lem :
      (status : StatusCode) (seconds : ℕ) (inner : Service E S) (a : Arrival E) (w : World S)
      → Timed status (inner (a, w)) (timeout status seconds inner (a, w))
  pub trace_lem :
      (inner : Service E S) (a : Arrival E) (w : World S)
      → Kept own_headers (inner (a, w)) (trace inner (a, w))
  pub catch_panic_lem :
      (handler : PanicPayload → World S → Run S) (inner : Service E S) (a : Arrival E) (w : World S)
      → Caught handler (inner (a, w)) (catch_panic handler inner (a, w))
  pub compression_lem :
      (inner : Service E S) (a : Arrival E) (w : World S)
      → Kept own_headers (inner (a, w)) (compression inner (a, w))
  pub set_request_id_lem :
      (inner : Service E S) (a : Arrival E) (w : World S)
      → (id : String) × Kept own_headers
          (inner (with_request_id id a, w))
          (set_request_id inner (a, w))
  pub propagate_request_id_lem :
      (inner : Service E S) (a : Arrival E) (w : World S)
      → Propagated a.request_id (inner (a, w)) (propagate_request_id inner (a, w))
  pub body_limit_lem :
      (bytes : ℕ) (inner : Service E S) (a : Arrival E) (w : World S)
      → Refused 413 w (body_limit bytes inner (a, w))
        ⊎ Kept own_headers (inner (a, w)) (body_limit bytes inner (a, w))
  pub preflight_lem :
      (policy : CorsLayer lib) (inner : Service E S) (a : Arrival E) (w : World S)
      → a.request.method ≡ "OPTIONS"
      → (r : Response) × (h : Headers) × (cors policy inner (a, w) ≡ (replied r h, w))
  pub cors_lem :
      (policy : CorsLayer lib) (inner : Service E S) (a : Arrival E) (w : World S)
      → a.request.method ≢ "OPTIONS"
      → Kept own_headers (inner (a, w)) (cors policy inner (a, w))
