-- ===== src/Launcher/Pipeline/Refused.antt =====
-- What a request comes to that the authorization refuses.
use modular_rust_platform.Base.{
  String, Option, none, some, ◌∷◌, ◌≡◌, ◌≢◌, ◌⊎◌, inl, inr, refl, sym, ap, ◌∙◌, subst,
}
use modular_rust_platform.Errors.Api.{Response, StatusCode}
use modular_rust_platform.Security.Jwt.{JsonWebToken}
use modular_rust_platform.Security.Builder.{Matchit, resolves, Chain}
use modular_rust_platform.Security.Hook.{PostAuthorizationHook}
use modular_rust_platform.Security.Layer.{Served, validation, call}
use modular_rust_platform.Security.Layer.Requests.{call-refused}
use modular_rust_platform.Launcher.Responses.{Headers}
use modular_rust_platform.Launcher.Server.{BootstrapConfig}
use modular_rust_platform.Launcher.Cors.{HeaderValues, cors_layer}
use modular_rust_platform.Launcher.Pipeline.Stack.{
  Arrival, World, Run, Service, replied, Kept, own_headers, Tower,
}
use modular_rust_platform.Launcher.Pipeline.{
  wrap, app, admit, authorize, count_failure, with_security_headers, unused,
}
use modular_rust_platform.Launcher.Pipeline.Outer.{
  HasSecurityHeaders, add_security_headers-HasSecurityHeaders, behind, app_lem,
}

-- A reply with the security headers survives what CORS does to it.
pub Kept-HasSecurityHeaders :
    {S : Type 0} (r : Response) (h : Headers) (w : World S) (run : Run S)
    → Kept own_headers (replied r h, w) run
    → HasSecurityHeaders h
    → (changed : Headers) × (run ≡ (replied r changed, w)) × HasSecurityHeaders changed
Kept-HasSecurityHeaders r h w run (changed, e, same) (a, b, c) = (
  changed,
  e,
  (
    same _ (inr (inl refl)) ∙ a,
    same _ (inr (inr (inl refl))) ∙ b,
    same _ (inr (inr (inr (inl refl)))) ∙ c,
  ),
)

module _ (values : HeaderValues) (lib : Matchit) {E S : Type 0} (jwt : JsonWebToken E)
    (tower : Tower values E S) (trace_id : Arrival E → String) (config : BootstrapConfig)
    (chain : Chain lib E) (hook : Option (PostAuthorizationHook (Arrival E × World S) (Run S)))
    (router : Service E S) (a : Arrival E) (w : World S) where
  -- What the authorization does with the request.
  abbrev pub served : Served E
  served = call lib jwt chain (λ req. unused) a.request

  authorize-refused :
      (inner : Service E S)
      → validation lib jwt chain a.request ≡ resolves
      → served.reached ≡ none
      → authorize values lib jwt tower trace_id chain inner (a, w)
        ≡ (replied served.response tower.json_headers, count_failure served.counted w)
  unfolding authorize admit
  authorize-refused inner validated e = rw (validated, authorize) (rw (e, admit) refl)

  -- What the client gets, where the response has the status that is counted.
  app-counted :
      (status : StatusCode)
      → validation lib jwt chain a.request ≡ resolves
      → served.reached ≡ none
      → served.response.status ≡ status
      → served.counted ≡ some (a.request.method, status)
      → a.request.method ≢ "OPTIONS"
      → (h : Headers) × (app values lib jwt tower trace_id config (some chain) hook router (a, w)
          ≡ (
            replied served.response h,
            record w { counted = (a.request.method, served.response.status) ∷ w.counted },
          ))
        × HasSecurityHeaders h
  unfolding wrap with_security_headers
  app-counted status validated refused answered counted method =
      let inner = behind values lib jwt tower trace_id config (some chain) hook router in
      let guarded : Service E S =
        λ aw. with_security_headers (authorize values lib jwt tower trace_id chain inner aw) in
      let run =
        authorize-refused inner validated refused
        ∙ ap (λ c. (replied served.response tower.json_headers, count_failure c w))
            (counted ∙ ap (λ s. some (a.request.method, s)) (sym answered)) in
      let kept =
        subst
          (λ (x : Run S). Kept own_headers x (tower.cors (cors_layer values config) guarded (a, w)))
          (ap with_security_headers run)
          (tower.cors_lem (cors_layer values config) guarded a w method) in
      let (changed, e, secure) =
        Kept-HasSecurityHeaders _ _ _ _ kept
          (add_security_headers-HasSecurityHeaders tower.json_headers) in
      (
        changed,
        ap (λ (s : Service E S). s (a, w))
              (app_lem values lib jwt tower trace_id config (some chain) hook router)
            ∙ e,
        secure,
      )

  -- A request, other than an `OPTIONS` request, that the authorization refuses, its claims validator having
  -- resolved if it is called, is answered with 401 or 403 and the security headers, and only the failure
  -- counter changes, by its method and that status: no handler, hook or log sees the request, and it is not
  -- measured.
  pub app-refused :
      validation lib jwt chain a.request ≡ resolves
      → served.reached ≡ none
      → a.request.method ≢ "OPTIONS"
      → (r : Response) × (h : Headers) × ((r.status ≡ 401) ⊎ (r.status ≡ 403))
        × (app values lib jwt tower trace_id config (some chain) hook router (a, w)
            ≡ (replied r h, record w { counted = (a.request.method, r.status) ∷ w.counted }))
        × HasSecurityHeaders h
  app-refused validated refused method =
      elim (call-refused lib jwt chain (λ req. unused) a.request refused) [
        | inl (status, counted, none_presented) ↦
            let (h, run, secure) = app-counted 401 validated refused status counted method in
            (served.response, h, inl status, run, secure)
        | inr (status, counted, presented) ↦
            let (h, run, secure) = app-counted 403 validated refused status counted method in
            (served.response, h, inr status, run, secure)
      ]
