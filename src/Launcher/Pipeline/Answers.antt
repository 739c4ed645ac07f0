-- ===== src/Launcher/Pipeline/Answers.antt =====
-- What the application answers a request that the authorization lets through.
pub mod Endings
use modular_rust_platform.Base.{
  ℕ, ◌*◌, String, Bool, true, false, ◌||◌, Option, none, some, List, [], ◌∷◌, ◌≡◌, ◌≢◌, ◌⊎◌, inl,
  inr, refl, sym, ap, ◌∙◌, subst,
}
use modular_rust_platform.Errors.Api.{Response}
use modular_rust_platform.Security.Jwt.{JsonWebToken}
use modular_rust_platform.Security.Builder.{Matchit, resolves, Chain}
use modular_rust_platform.Security.Layer.{Request, validation, call}
use modular_rust_platform.Launcher.Responses.{Headers}
use modular_rust_platform.Launcher.Server.{
  BootstrapConfig, Middleware, http_metrics, timeout, request_logging, trace, error_logging,
  catch_panic, compression, set_request_id, propagate_request_id, body_limit, authorization,
  layer_if,
}
use modular_rust_platform.Launcher.Cors.{HeaderValues, cors_layer}
use modular_rust_platform.Launcher.Pipeline.Stack.{
  Arrival, World, Run, Service, replied, Kept, own_headers, with_request_id, Tower,
}
use modular_rust_platform.Launcher.Pipeline.{
  wrap, wrap_all, app, admit, authorize, with_security_headers, unused, record_http_metrics,
  log_requests, error_logging_middleware, on_panic,
}
use modular_rust_platform.Launcher.Pipeline.Outer.{
  HasSecurityHeaders, inner_layers, inner_lem, behind, app_lem,
}
use modular_rust_platform.Launcher.Pipeline.Replies.{app-replies}
use modular_rust_platform.Launcher.Pipeline.Answers.Endings.{
  Ending, answered, ending, in_time, calm, status_only, Kept-ending, Propagated-ending,
  Timed-ending, Caught-ending, after_metrics-ending, after_request-ending, after_error-ending,
  with_security_headers-ending,
}

module _ {E S : Type 0} where
  -- Every future of the service for the request ends in this way.
  abbrev pub Ends : Request E → Ending → Service E S → Type 0
  Ends req e s = (a : Arrival E) (w : World S) → a.request ≡ req → ending (s (a, w)).0 ≡ e

  -- In this way, or with the refusal of a body that is too large.
  abbrev pub EndsOrRefuses : Request E → Ending → Service E S → Type 0
  EndsOrRefuses req e s =
      (a : Arrival E) (w : World S)
      → a.request ≡ req
      → (ending (s (a, w)).0 ≡ e) ⊎ (ending (s (a, w)).0 ≡ answered (status_only 413))

module _ (values : HeaderValues) (lib : Matchit) {E S : Type 0} (jwt : JsonWebToken E)
    (tower : Tower values E S) (trace_id : Arrival E → String) (config : BootstrapConfig)
    (chain : Chain lib E) where
  abbrev wrap_here : Middleware → Service E S → Service E S
  wrap_here = wrap values lib jwt tower trace_id config (some chain) none

  abbrev wrap_all_here : List Middleware → Service E S → Service E S
  wrap_all_here = wrap_all values lib jwt tower trace_id config (some chain) none

  module _ (req : Request E) (e : Ending) where
    metrics-Ends :
        (on : Bool) (s : Service E S)
        → Ends req e s
        → Ends req e (wrap_all_here (layer_if on http_metrics) s)
    unfolding wrap_all wrap record_http_metrics
    metrics-Ends false s h a w same = h a w same
    metrics-Ends true s h a w same = elim (tower.route_layer_lem record_http_metrics s a w) [
      | inl matched ↦ ap (λ (x : Run S). ending x.0) matched ∙ after_metrics-ending _ _ ∙ h a _ same
      | inr unmatched ↦ ap (λ (x : Run S). ending x.0) unmatched ∙ h a w same
    ]

    timeout-Ends : (s : Service E S) → Ends req e s → Ends req (in_time e) (wrap_here timeout s)
    unfolding wrap
    timeout-Ends s h a w same =
        Timed-ending _ _ (tower.timeout_lem 408 300 s a w) ∙ ap in_time (h a w same)

    logging-Ends :
        (on : Bool) (s : Service E S)
        → Ends req e s
        → Ends req e (wrap_all_here (layer_if on request_logging) s)
    unfolding wrap_all wrap log_requests
    logging-Ends false s h a w same = h a w same
    logging-Ends true s h a w same = after_request-ending (trace_id a) a w.now _ ∙ h a w same

    caught-Ends :
        (s : Service E S)
        → Ends req e s
        → Ends req (calm e) (wrap_all_here (trace ∷ error_logging ∷ catch_panic ∷ []) s)
    unfolding wrap_all wrap error_logging_middleware
    caught-Ends s h a w same =
        Caught-ending tower.json_headers _ _ (
          tower.catch_panic_lem (on_panic tower.json_headers)
            (wrap_here error_logging (wrap_here trace s)) a w)
        ∙ ap calm (
            after_error-ending a _
            ∙ Kept-ending own_headers _ _ (tower.trace_lem s a w)
            ∙ h a w same)

    upper-Ends :
        (s : Service E S)
        → Ends req e s
        → EndsOrRefuses req e (
            wrap_all_here (compression ∷ set_request_id ∷ propagate_request_id ∷ body_limit ∷ []) s)
    unfolding wrap_all wrap
    upper-Ends s h a w same =
        let identified : Service E S = tower.set_request_id (tower.compression s) in
        let (id, kept_id) = tower.set_request_id_lem (tower.compression s) a w in
        let ends =
          Propagated-ending a.request_id _ _ (tower.propagate_request_id_lem identified a w)
          ∙ Kept-ending own_headers _ _ kept_id
          ∙ Kept-ending own_headers _ _ (tower.compression_lem s (with_request_id id a) w)
          ∙ h (with_request_id id a) w same in
        elim (tower.body_limit_lem (10 * 1024 * 1024) (tower.propagate_request_id identified) a w) [
          | inl (changed, quiet, refusal) ↦ inr (ap (λ (x : Run S). ending x.0) refusal)
          | inr kept ↦ inl (Kept-ending own_headers _ _ kept ∙ ends)
        ]

  inner-Ends :
      (router : Service E S) (req : Request E) (e : Ending)
      → Ends req e router
      → EndsOrRefuses req (calm (in_time e)) (wrap_all_here (inner_layers config) router)
  unfolding wrap_all
  inner-Ends router req e h =
      let metrics =
        config.observability.metrics_enabled || config.observability.prometheus_enabled in
      let measured = wrap_all_here (layer_if metrics http_metrics) router in
      subst (EndsOrRefuses req (calm (in_time e)))
        (sym (inner_lem values lib jwt tower trace_id config (some chain) none router))
        (upper-Ends req (calm (in_time e)) _ (
          caught-Ends req (in_time e) _ (
            logging-Ends req (in_time e) config.observability.http_logging_enabled
              (wrap_here timeout measured)
              (timeout-Ends req e measured (metrics-Ends req e metrics router h)))))

  module _ (router : Service E S) (a : Arrival E) (w : World S) (seen : Request E)
      (e : Ending) where
    authorized-Ends :
        (inner : Service E S) (f : Ending)
        → validation lib jwt chain a.request ≡ resolves
        → (call lib jwt chain (λ req. unused) a.request).reached ≡ some seen
        → EndsOrRefuses seen f inner
        → (ending (authorize values lib jwt tower trace_id chain inner (a, w)).0 ≡ f)
          ⊎ (ending (authorize values lib jwt tower trace_id chain inner (a, w)).0
              ≡ answered (status_only 413))
    unfolding authorize admit
    authorized-Ends inner f validated reached h =
        rw (validated, authorize) (rw (reached, admit) (h (record a { request = seen }) w refl))

    abbrev guarded : Service E S
    guarded =
        authorize values lib jwt tower trace_id chain
          (behind values lib jwt tower trace_id config (some chain) none router)

    app-ending :
        a.request.method ≢ "OPTIONS"
        → ending (app values lib jwt tower trace_id config (some chain) none router (a, w)).0
          ≡ ending (guarded (a, w)).0
    unfolding wrap
    app-ending method =
        let secured : Service E S = λ aw. with_security_headers (guarded aw) in
        ap (λ (s : Service E S). ending (s (a, w)).0)
          (app_lem values lib jwt tower trace_id config (some chain) none router)
        ∙ Kept-ending own_headers _ _ (tower.cors_lem (cors_layer values config) secured a w method)
        ∙ with_security_headers-ending (guarded (a, w))

    behind-Ends :
        Ends seen e router
        → EndsOrRefuses seen
            (calm (in_time e))
            (behind values lib jwt tower trace_id config (some chain) none router)
    unfolding wrap
    behind-Ends h = inner-Ends router seen e h

    -- Without a hook, a request, other than an `OPTIONS` request, that the authorization lets through, its
    -- claims validator having resolved if it is called, and for which the router ends alike in every state, gets the answer of the router, 408 if that does not come
    -- in time, and the 500 of the panic handler if it panics, in each case with the security headers;
    -- unless it is refused with 413 for its body.
    pub app-answers :
        validation lib jwt chain a.request ≡ resolves
        → (call lib jwt chain (λ req. unused) a.request).reached ≡ some seen
        → a.request.method ≢ "OPTIONS"
        → Ends seen e router
        → (r : Response) × (h : Headers) × (v : World S) × (app values lib jwt tower trace_id config
              (some chain)
              none
              router
              (a, w)
            ≡ (replied r h, v))
          × HasSecurityHeaders h
          × ((answered r ≡ calm (in_time e)) ⊎ (r ≡ status_only 413))
    app-answers validated reached method ends =
        let (r, h, v, run, secure) =
          app-replies values lib jwt tower trace_id config (some chain) none router tt a w
            validated in
        let same = sym (ap (λ (x : Run S). ending x.0) run) ∙ app-ending method in
        let secured : HasSecurityHeaders h = elim secure [
          | inl options ↦ absurd (method options)
          | inr kept ↦ kept
        ] in
        elim (authorized-Ends _ (calm (in_time e)) validated reached (behind-Ends ends)) [
          | inl answer ↦ (r, h, v, run, secured, inl (same ∙ answer))
          | inr refusal ↦
              let whole : answered r ≡ answered (status_only 413) = same ∙ refusal in
              (r, h, v, run, secured, inr (cc))
        ]
