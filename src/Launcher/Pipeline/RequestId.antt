-- ===== src/Launcher/Pipeline/RequestId.antt =====
-- The request id that a response carries.
pub mod Runs
use modular_rust_platform.Base.{
  ℕ, ◌*◌, String, Bool, true, false, ◌||◌, Option, none, some, List, [], ◌∷◌, ◌++◌, ◌≡◌, ◌≢◌, ◌⊎◌,
  inl, inr, refl, sym, ap, ◌∙◌, subst, In, Option-cases,
}
use modular_rust_platform.Errors.Api.{Response, StatusCode}
use modular_rust_platform.Security.Jwt.{JsonWebToken}
use modular_rust_platform.Security.Builder.{Matchit, resolves, Chain}
use modular_rust_platform.Security.Layer.{validation, call}
use modular_rust_platform.Security.Layer.Requests.{call-refused}
use modular_rust_platform.Launcher.Responses.{Headers, PanicPayload}
use modular_rust_platform.Launcher.Metrics.{Pending}
use modular_rust_platform.Launcher.Server.{
  BootstrapConfig, Middleware, http_metrics, timeout, request_logging, trace, error_logging,
  catch_panic, compression, set_request_id, propagate_request_id, body_limit, post_authorization,
  authorization, security_headers, cors, layer_if,
}
use modular_rust_platform.Launcher.Cors.{HeaderValues, cors_layer}
use modular_rust_platform.Launcher.Pipeline.Stack.{
  propagated, Arrival, World, Run, Service, Completion, replied, unwound, unfinished, Kept, Timed,
  Caught, Refused, Propagated, own_headers, with_request_id, Tower,
}
use modular_rust_platform.Launcher.Pipeline.{
  wrap, wrap_all, app, admit, authorize, count_failure, with_security_headers, unused,
  after_request, after_error, after_metrics, record_http_metrics, log_requests,
  error_logging_middleware, on_panic,
}
use modular_rust_platform.Launcher.Pipeline.Outer.{
  add_security_headers-request_id, inner_layers, upper_layers, inner_lem, behind, app_lem, wrap_if,
}
use modular_rust_platform.Launcher.Pipeline.Replies.{Validates, app-replies, Always}
use modular_rust_platform.Launcher.Pipeline.RequestId.Runs.{
  Bare, Timed-Bare, Kept-Bare, Caught-Bare, after_metrics-Bare, after_request-Bare,
  after_error-Bare, on_panic-Bare, Echo, Propagated-Echo, Kept-Echo, with_security_headers-Echo,
}

module _ (values : HeaderValues) (lib : Matchit) {E S : Type 0} (jwt : JsonWebToken E)
    (tower : Tower values E S) (trace_id : Arrival E → String) (config : BootstrapConfig) where
  authorize-Echo :
      (chain : Chain lib E) (inner : Service E S)
      → ((a : Arrival E) (w : World S) → Echo a.request_id (inner (a, w)))
      → (a : Arrival E) (w : World S) → validation lib jwt chain a.request ≡ resolves
      → Echo a.request_id (authorize values lib jwt tower trace_id chain inner (a, w))
  unfolding authorize admit
  authorize-Echo chain inner echoes a w validated =
      elim (Option-cases (call lib jwt chain (λ req. unused) a.request).reached) [
        | inl refused ↦
            let bare = tower.json_lem in
            elim (call-refused lib jwt chain (λ req. unused) a.request refused) [
              | inl (status, counted, unpresented) ↦
                  rw (validated, authorize) (rw (refused, admit) (inr (bare, inl status)))
              | inr (status, counted, presented) ↦
                  rw (validated, authorize) (rw (refused, admit) (inr (bare, inr (inl status))))
            ]
        | inr (req, reached) ↦
            rw (validated, authorize) (rw (reached, admit) (echoes (record a { request = req }) w))
      ]

  module _ (chain : Option (Chain lib E)) where
    abbrev wrap_here : Middleware → Service E S → Service E S
    wrap_here = wrap values lib jwt tower trace_id config chain none

    abbrev wrap_all_here : List Middleware → Service E S → Service E S
    wrap_all_here = wrap_all values lib jwt tower trace_id config chain none

    metrics-Bare :
        (on : Bool) (s : Service E S)
        → Always Bare s
        → Always Bare (wrap_all_here (layer_if on http_metrics) s)
    unfolding wrap_all wrap record_http_metrics
    metrics-Bare false s h a w = h a w
    metrics-Bare true s h a w = elim (tower.route_layer_lem record_http_metrics s a w) [
      | inl matched ↦ subst Bare (sym matched) (after_metrics-Bare _ _ (h a _))
      | inr unmatched ↦ subst Bare (sym unmatched) (h a w)
    ]

    timeout-Bare : (s : Service E S) → Always Bare s → Always Bare (wrap_here timeout s)
    unfolding wrap
    timeout-Bare s h a w = Timed-Bare 408 _ _ (tower.timeout_lem 408 300 s a w) (h a w)

    logging-Bare :
        (on : Bool) (s : Service E S)
        → Always Bare s
        → Always Bare (wrap_all_here (layer_if on request_logging) s)
    unfolding wrap_all wrap log_requests
    logging-Bare false s h a w = h a w
    logging-Bare true s h a w = after_request-Bare (trace_id a) a w.now _ (h a w)

    caught-Bare :
        (s : Service E S)
        → Always Bare s
        → Always Bare (wrap_all_here (trace ∷ error_logging ∷ catch_panic ∷ []) s)
    unfolding wrap_all wrap error_logging_middleware
    caught-Bare s h a w =
        Caught-Bare (on_panic tower.json_headers) _ _
          (on_panic-Bare tower.json_headers tower.json_lem)
          (tower.catch_panic_lem (on_panic tower.json_headers)
            (wrap_here error_logging (wrap_here trace s)) a w)
          (after_error-Bare a _ (Kept-Bare _ _ (tower.trace_lem s a w) (h a w)))

    upper-Echo :
        (s : Service E S)
        → Always Bare s
        → (a : Arrival E) (w : World S)
        → Echo a.request_id (
            wrap_all_here
              (compression ∷ set_request_id ∷ propagate_request_id ∷ body_limit ∷ [])
              s
              (a, w))
    unfolding wrap_all wrap
    upper-Echo s h a w =
        let identified : Service E S = tower.set_request_id (tower.compression s) in
        let (id, kept_id) = tower.set_request_id_lem (tower.compression s) a w in
        let bare = Kept-Bare _ _ kept_id (
          Kept-Bare _ _ (tower.compression_lem s (with_request_id id a) w)
            (h (with_request_id id a) w)) in
        let echo =
          Propagated-Echo a.request_id _ _ (tower.propagate_request_id_lem identified a w) bare in
        elim (tower.body_limit_lem (10 * 1024 * 1024) (tower.propagate_request_id identified) a w) [
          | inl (changed, quiet, e) ↦
              subst (Echo a.request_id) (sym e) (inr (quiet, inr (inr refl)))
          | inr kept ↦ Kept-Echo a.request_id _ _ kept echo
        ]

    inner-Echo :
        (router : Service E S)
        → Always Bare router
        → (a : Arrival E) (w : World S)
        → Echo a.request_id (wrap_all_here (inner_layers config) router (a, w))
    unfolding wrap_all
    inner-Echo router bare a w =
        let metrics =
          config.observability.metrics_enabled || config.observability.prometheus_enabled in
        let measured = wrap_all_here (layer_if metrics http_metrics) router in
        subst (λ (s : Service E S). Echo a.request_id (s (a, w)))
          (sym (inner_lem values lib jwt tower trace_id config chain none router))
          (upper-Echo _
            (caught-Bare _ (
              logging-Bare config.observability.http_logging_enabled (wrap_here timeout measured)
                (timeout-Bare measured (metrics-Bare metrics router bare))))
            a w)

  chain-Echo :
      (chain : Option (Chain lib E)) (s : Service E S)
      → ((a : Arrival E) (w : World S) → Echo a.request_id (s (a, w)))
      → (a : Arrival E) (w : World S) → Validates lib jwt chain a.request
      → Echo a.request_id
          (wrap values lib jwt tower trace_id config chain none authorization s (a, w))
  unfolding wrap
  chain-Echo none s h a w validated = h a w
  chain-Echo (some chain) s h a w validated = authorize-Echo chain s h a w validated

  module _ (chain : Option (Chain lib E)) (router : Service E S) where
    app-Echo :
        Always Bare router
        → (a : Arrival E) (w : World S) → Validates lib jwt chain a.request
        → a.request.method ≢ "OPTIONS"
        → Echo a.request_id (app values lib jwt tower trace_id config chain none router (a, w))
    unfolding wrap
    app-Echo bare a w validated method =
        let guarded : Service E S =
          wrap values lib jwt tower trace_id config chain none authorization
            (behind values lib jwt tower trace_id config chain none router) in
        let secured : Service E S = λ aw. with_security_headers (guarded aw) in
        let echo =
          chain-Echo chain (behind values lib jwt tower trace_id config chain none router)
            (inner-Echo chain router bare) a w validated in
        subst (λ (s : Service E S). Echo a.request_id (s (a, w)))
          (sym (app_lem values lib jwt tower trace_id config chain none router))
          (Kept-Echo a.request_id _ _ (tower.cors_lem (cors_layer values config) secured a w method)
            (with_security_headers-Echo a.request_id (guarded (a, w)) echo))

    -- Where there is no hook, no handler sets the header and the claims validator, if it is called for the
    -- request, resolves, the reply to a request, other than an `OPTIONS`
    -- request, has the request id that the request came with: for one that came without, that is none,
    -- not the id that was made for it. Replies with 401, 403 or 413 may have none in any case.
    pub app-request_id :
        Always Bare router
        → (a : Arrival E) (w : World S) → Validates lib jwt chain a.request
        → a.request.method ≢ "OPTIONS"
        → (r : Response) × (h : Headers) × (v : World S) × (app values lib jwt tower trace_id config
              chain none router
              (a, w)
            ≡ (replied r h, v))
          × ((h "x-request-id" ≡ a.request_id)
              ⊎ ((h "x-request-id" ≡ none)
                  × ((r.status ≡ 401) ⊎ (r.status ≡ 403) ⊎ (r.status ≡ 413))))
    app-request_id bare a w validated method =
        let (r, h, v, run, secure) =
          app-replies values lib jwt tower trace_id config chain none router tt a w validated in
        (r, h, v, run, subst (Echo a.request_id) run (app-Echo bare a w validated method))
