-- ===== src/Launcher/Pipeline/Replies.antt =====
-- That the application replies to every request, whatever the handlers do.
pub mod Runs
use modular_rust_platform.Base.{
  ℕ, ◌*◌, String, Bool, true, false, ◌||◌, Option, none, some, List, [], ◌∷◌, ◌++◌, ◌≡◌, ◌≢◌, ◌⊎◌,
  inl, inr, refl, sym, ap, ◌∙◌, subst, str_eq, eq_iff, false-ne-true, Option-cases, Bool-cases,
}
use modular_rust_platform.Errors.Api.{Response, StatusCode}
use modular_rust_platform.Security.Jwt.{JsonWebToken}
use modular_rust_platform.Security.Builder.{Matchit, resolves, Chain}
use modular_rust_platform.Security.Hook.{PostAuthorizationHook, layer}
use modular_rust_platform.Security.Layer.{Request, validation, call}
use modular_rust_platform.Launcher.Responses.{Headers, PanicPayload}
use modular_rust_platform.Launcher.Server.{
  BootstrapConfig, Middleware, http_metrics, timeout, request_logging, trace, error_logging,
  catch_panic, compression, set_request_id, propagate_request_id, body_limit, post_authorization,
  authorization, security_headers, cors, layer_if,
}
use modular_rust_platform.Launcher.Cors.{HeaderValues, cors_layer}
use modular_rust_platform.Launcher.Pipeline.Stack.{
  Propagated, with_request_id, Arrival, World, Run, Service, Completion, replied, unwound,
  unfinished, Kept, Timed, Caught, Refused, own_headers, Tower,
}
use modular_rust_platform.Launcher.Pipeline.{
  wrap, wrap_all, app, admit, authorize, count_failure, with_security_headers, unused,
  after_request, after_error, log_requests, error_logging_middleware, on_panic,
}
use modular_rust_platform.Launcher.Pipeline.Outer.{
  wrap_if, HasSecurityHeaders, add_security_headers-HasSecurityHeaders, inner_layers, upper_layers,
  inner_lem, behind, app_lem, wrap_all-append,
}
use modular_rust_platform.Launcher.Pipeline.Refused.{Kept-HasSecurityHeaders}
use modular_rust_platform.Launcher.Pipeline.Replies.Runs.{
  Replied, Finished, Timed-Finished, Kept-Replied, Propagated-Replied, Kept-Finished,
  Caught-Replied, on_panic-Replied, after_request-Finished, after_error-Finished,
}

module _ {E S : Type 0} where
  abbrev pub Always : (Run S → Type 0) → Service E S → Type 0
  Always P s = (a : Arrival E) (w : World S) → P (s (a, w))

  -- The hook replies where the service that it wraps always does; `none` is no hook.
  abbrev pub AnswersIfNext : Option (PostAuthorizationHook (Arrival E × World S) (Run S)) → Type 0
  AnswersIfNext none = Unit
  AnswersIfNext (some hook) =
      (inner : Service E S) → Always Replied inner → Always Replied (layer hook inner)

-- The claims validator resolves, if there is one and the request makes the authorization call it.
abbrev pub Validates :
    (lib : Matchit) {E : Type 0} → JsonWebToken E → Option (Chain lib E) → Request E → Type 0
Validates lib jwt none req = Unit
Validates lib jwt (some chain) req = validation lib jwt chain req ≡ resolves

module _ (values : HeaderValues) (lib : Matchit) {E S : Type 0} (jwt : JsonWebToken E)
    (tower : Tower values E S) (trace_id : Arrival E → String) (config : BootstrapConfig) where
  authorize-Replied :
      (chain : Chain lib E) (inner : Service E S)
      → Always Replied inner
      → (a : Arrival E) (w : World S) → validation lib jwt chain a.request ≡ resolves
      → Replied (authorize values lib jwt tower trace_id chain inner (a, w))
  unfolding authorize admit
  authorize-Replied chain inner answers a w validated =
      elim (Option-cases (call lib jwt chain (λ req. unused) a.request).reached) [
        | inl refused ↦
            let served = call lib jwt chain (λ req. unused) a.request in
            (
              served.response,
              tower.json_headers,
              count_failure served.counted w,
              rw (validated, authorize) (rw (refused, admit) refl),
            )
        | inr (req, reached) ↦
            let (r, h, v, e) = answers (record a { request = req }) w in
            (r, h, v, rw (validated, authorize) (rw (reached, admit) e))
      ]

  module _ (chain : Option (Chain lib E))
      (hook : Option (PostAuthorizationHook (Arrival E × World S) (Run S))) where
    abbrev wrap_here : Middleware → Service E S → Service E S
    wrap_here = wrap values lib jwt tower trace_id config chain hook

    abbrev wrap_all_here : List Middleware → Service E S → Service E S
    wrap_all_here = wrap_all values lib jwt tower trace_id config chain hook

    timeout-Finished : (s : Service E S) → Always Finished (wrap_here timeout s)
    unfolding wrap
    timeout-Finished s a w = Timed-Finished 408 _ _ (tower.timeout_lem 408 300 s a w)

    logging-Finished :
        (on : Bool) (s : Service E S)
        → Always Finished s
        → Always Finished (wrap_all_here (layer_if on request_logging) s)
    unfolding wrap_all wrap log_requests
    logging-Finished false s h = h
    logging-Finished true s h = λ a w. after_request-Finished (trace_id a) a w.now _ (h a w)

    -- From the trace to the panic handler.
    caught-Replied :
        (s : Service E S)
        → Always Finished s
        → Always Replied (wrap_all_here (trace ∷ error_logging ∷ catch_panic ∷ []) s)
    unfolding wrap_all wrap error_logging_middleware
    caught-Replied s h a w =
        Caught-Replied (on_panic tower.json_headers) _ _ (on_panic-Replied tower.json_headers)
          (tower.catch_panic_lem (on_panic tower.json_headers)
            (wrap_here error_logging (wrap_here trace s)) a w)
          (after_error-Finished a _ (Kept-Finished own_headers _ _ (tower.trace_lem s a w) (h a w)))

    -- From the compression to the body limit.
    upper-Replied :
        (s : Service E S)
        → Always Replied s
        → Always Replied (
            wrap_all_here (compression ∷ set_request_id ∷ propagate_request_id ∷ body_limit ∷ []) s)
    unfolding wrap_all wrap
    upper-Replied s h a w = elim (tower.body_limit_lem (10 * 1024 * 1024) propagated a w) [
      | inl (changed, quiet, e) ↦ (_, changed, w, e)
      | inr kept ↦ Kept-Replied own_headers _ _ kept (
          Propagated-Replied a.request_id _ _
            (tower.propagate_request_id_lem (tower.set_request_id (tower.compression s)) a w)
            (let (id, kept_id) = tower.set_request_id_lem (tower.compression s) a w in
              Kept-Replied own_headers _ _ kept_id (
                Kept-Replied own_headers _ _ (tower.compression_lem s (with_request_id id a) w)
                  (h (with_request_id id a) w))))
    ]
      where
        propagated : Service E S
        propagated = tower.propagate_request_id (tower.set_request_id (tower.compression s))

    abbrev measured : Service E S → Service E S
    measured =
        wrap_if values lib jwt tower trace_id config chain hook
          (config.observability.metrics_enabled || config.observability.prometheus_enabled)
          http_metrics

    inner-Replied :
        (router : Service E S) → Always Replied (wrap_all_here (inner_layers config) router)
    unfolding wrap_all
    inner-Replied router =
        subst (Always Replied)
          (sym (inner_lem values lib jwt tower trace_id config chain hook router))
          (upper-Replied _ (
            caught-Replied _ (
              logging-Finished config.observability.http_logging_enabled
                (wrap_here timeout (measured router)) (timeout-Finished (measured router)))))

  hook-Replied :
      (chain : Option (Chain lib E))
      (hook : Option (PostAuthorizationHook (Arrival E × World S) (Run S))) (s : Service E S)
      → AnswersIfNext hook
      → Always Replied s
      → Always Replied (wrap values lib jwt tower trace_id config chain hook post_authorization s)
  unfolding wrap
  hook-Replied chain none s calls h = h
  hook-Replied chain (some hook) s calls h = calls s h

  chain-Replied :
      (chain : Option (Chain lib E))
      (hook : Option (PostAuthorizationHook (Arrival E × World S) (Run S))) (s : Service E S)
      → Always Replied s
      → (a : Arrival E) (w : World S) → Validates lib jwt chain a.request
      → Replied (wrap values lib jwt tower trace_id config chain hook authorization s (a, w))
  unfolding wrap
  chain-Replied none hook s h a w validated = h a w
  chain-Replied (some chain) hook s h a w validated = authorize-Replied chain s h a w validated

  module _ (chain : Option (Chain lib E))
      (hook : Option (PostAuthorizationHook (Arrival E × World S) (Run S)))
      (router : Service E S) where
    guarded-Replied :
        AnswersIfNext hook
        → (a : Arrival E) (w : World S) → Validates lib jwt chain a.request
        → Replied (
            wrap values lib jwt tower trace_id config chain hook authorization
              (behind values lib jwt tower trace_id config chain hook router)
              (a, w))
    guarded-Replied calls =
        chain-Replied chain hook _
          (hook-Replied chain hook _ calls (inner-Replied chain hook router))

    -- Where the hook, if there is one, replies whenever what it wraps always does, a request for which the
    -- claims validator, if it is called, resolves gets a reply, also where a handler panics or does not
    -- finish, and but for the `OPTIONS` requests, which CORS answers, it has the security headers.
    pub app-replies :
        AnswersIfNext hook
        → (a : Arrival E) (w : World S) → Validates lib jwt chain a.request
        → (r : Response) × (h : Headers) × (v : World S) × (app values lib jwt tower trace_id config
              chain hook router
              (a, w)
            ≡ (replied r h, v))
          × ((a.request.method ≡ "OPTIONS") ⊎ HasSecurityHeaders h)
    unfolding wrap with_security_headers
    app-replies calls a w validated =
        let guarded : Service E S =
          wrap values lib jwt tower trace_id config chain hook authorization
            (behind values lib jwt tower trace_id config chain hook router) in
        let secured : Service E S = λ aw. with_security_headers (guarded aw) in
        let policy = cors_layer values config in
        let same =
          ap (λ (s : Service E S). s (a, w))
            (app_lem values lib jwt tower trace_id config chain hook router) in
        elim (Bool-cases (str_eq a.request.method "OPTIONS")) [
          | inl preflight ↦
              let method = (eq_iff a.request.method "OPTIONS").0 preflight in
              let (r, h, e) = tower.preflight_lem policy secured a w method in
              (r, h, w, same ∙ e, inl method)
          | inr other ↦
              let (r, h, v, run) = guarded-Replied calls a w validated in
              let kept =
                subst (λ (x : Run S). Kept own_headers x (tower.cors policy secured (a, w)))
                  (ap with_security_headers run)
                  (tower.cors_lem policy secured a w (λ e.
                    absurd
                      (false-ne-true (sym other ∙ (eq_iff a.request.method "OPTIONS").1 e)))) in
              let (changed, e, secure) =
                Kept-HasSecurityHeaders _ _ _ _ kept (add_security_headers-HasSecurityHeaders h) in
              (r, changed, v, same ∙ e, inr secure)
        ]
