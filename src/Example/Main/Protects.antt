-- ===== src/Example/Main/Protects.antt =====
-- What the application that `main` serves does with the requests for its administration.
use modular_rust_platform.Base.{
  String, refl, none, some, ◌∷◌, ◌≡◌, ◌≢◌, ◌⊎◌, inl, inr, sym, ◌∙◌, subst, Option-cases,
  some_injective,
}
use modular_rust_platform.Errors.Api.{Response}
use modular_rust_platform.Security.Jwt.{Claims, JsonWebToken}
use modular_rust_platform.Security.Builder.{Matchit, resolves, Chain}
use modular_rust_platform.Security.Layer.{validation, call}
use modular_rust_platform.Security.Layer.Requests.{Presents}
use modular_rust_platform.Launcher.Responses.{Headers}
use modular_rust_platform.Launcher.Cors.{HeaderValues}
use modular_rust_platform.Launcher.Pipeline.Stack.{Arrival, World, Service, replied, Tower}
use modular_rust_platform.Launcher.Pipeline.{unused}
use modular_rust_platform.Launcher.Pipeline.Outer.{HasSecurityHeaders}
use modular_rust_platform.Launcher.Pipeline.Refused.{app-refused}
use modular_rust_platform.Example.Access.{AppClaims, build_authorization}
use modular_rust_platform.Example.Access.Admin.{
  Compiles, IsAdminPath, chain_of, build_authorization_lem, build_authorization-admin,
}
use modular_rust_platform.Example.Main.{demo_config, demo_jwt_config, served_app}

module _ (values : HeaderValues) (lib : Matchit) (route : String → lib.Router) {S : Type 0}
    (jwt : JsonWebToken AppClaims) (tower : Tower values AppClaims S)
    (trace_id : Arrival AppClaims → String) (router : Service AppClaims S) where
  -- Where the application's patterns are valid, a request, other than an `OPTIONS` request, for a path of
  -- the administration that is of no public pattern, without a credential for claims with the role ADMIN,
  -- is answered with 401 or 403 and the security headers, and nothing but the failure counter changes.
  pub served_app-admin :
      Compiles lib route
      → (chain : Chain lib AppClaims) → build_authorization lib demo_jwt_config ≡ some chain
      → (a : Arrival AppClaims) (w : World S) → IsAdminPath lib route a.request.path
      → a.request.method ≢ "OPTIONS"
      → ¬ (
          (claims : Claims AppClaims) × Presents lib jwt chain (λ req. unused) a.request claims
          × (claims.ext.role ≡ "ADMIN"))
      → (r : Response) × (h : Headers) × ((r.status ≡ 401) ⊎ (r.status ≡ 403))
        × (served_app values lib jwt tower trace_id router chain (a, w)
            ≡ (replied r h, record w { counted = (a.request.method, r.status) ∷ w.counted }))
        × HasSecurityHeaders h
  unfolding served_app validation
  served_app-admin valid chain built a w path method unauthorized =
      let same : chain_of lib route demo_jwt_config ≡ chain =
        some_injective (sym (build_authorization_lem lib route demo_jwt_config valid) ∙ built) in
      elim (Option-cases (call lib jwt chain (λ req. unused) a.request).reached) [
        | inl refused ↦
            app-refused values lib jwt tower trace_id demo_config chain none router a w
              (subst (λ c. validation lib jwt c a.request ≡ resolves) same refl) refused method
        | inr (seen, reached) ↦
            let (authorized, (claims, presents, role, context)) =
              build_authorization-admin lib route jwt (λ req. unused) a.request demo_jwt_config
                valid seen path
                (subst (λ c. (call lib jwt c (λ req. unused) a.request).reached ≡ some seen)
                  (sym same) reached) in
            absurd (
              unauthorized (
                claims,
                subst (λ c. Presents lib jwt c (λ req. unused) a.request claims) same presents,
                role,
              ))
      ]
