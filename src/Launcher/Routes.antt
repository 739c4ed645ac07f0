-- ===== src/Launcher/Routes.antt =====
-- `collect_routes` of crates/stano-axum/src/routes.rs and crates/stano-launcher/src/routes.rs, which are the same,
-- `serve_prometheus_metrics` and `prometheus_router` of crates/stano-launcher/src/observability.rs. The router of
-- utoipa is a parameter, with its routes in the order in which they were added; so is the encoder.
use modular_rust_platform.Base.{
  String, Option, none, some, List, [], ◌∷◌, ◌++◌, map, Result, ok, err, ◌≡◌, sym, ap, ◌∙◌,
  append_assoc, append-nil,
}
use modular_rust_platform.Errors.Api.{StatusCode}

pub record OpenApiRouter : Type 1 where
  pub Router : Type 0
  pub MethodRouter : Type 0
  pub new : Router
  pub routes : Router → MethodRouter → Router
  pub added : Router → List MethodRouter
  pub new_lem : added new ≡ []
  pub routes_lem : (r : Router) (m : MethodRouter) → added (routes r m) ≡ added r ++ m ∷ []

module _ (lib : OpenApiRouter) where
  open lib use {Router, MethodRouter, new, routes, added, new_lem, routes_lem}

  -- A registration holds the factory of its routes.
  pub record RouteRegistration : Type 0 where
    pub factory : Unit {0} → MethodRouter

  collect_from : Router → List RouteRegistration → Router
  collect_from router [] = router
  collect_from router (reg ∷ regs) = collect_from (routes router (reg.factory tt)) regs

  pub collect_routes : List RouteRegistration → Router
  unfolding collect_from
  collect_routes registrations = collect_from new registrations

  abbrev pub made : RouteRegistration → MethodRouter
  made reg = reg.factory tt

  collect_from-added :
      (router : Router) (regs : List RouteRegistration)
      → added (collect_from router regs) ≡ added router ++ map made regs
  unfolding collect_from
  collect_from-added router [] = sym (append-nil (added router))
  collect_from-added router (reg ∷ regs) =
      collect_from-added (routes router (reg.factory tt)) regs
      ∙ ap (λ (ms : List MethodRouter). ms ++ map made regs) (routes_lem router (reg.factory tt))
      ∙ append_assoc (added router) (reg.factory tt ∷ []) (map made regs)

  -- The router has the routes of every registration once, in the order of the registrations.
  pub collect_routes-added :
      (regs : List RouteRegistration) → added (collect_routes regs) ≡ map made regs
  unfolding collect_routes
  collect_routes-added regs =
      collect_from-added new regs ∙ ap (λ (ms : List MethodRouter). ms ++ map made regs) new_lem

-- The response to a scrape: its status, the content type that is set, and the text.
pub record Scrape : Type 0 where
  pub status : StatusCode
  pub content_type : Option String
  pub body : String

-- For what the encoder writes of the metric families, and its format type.
unfoldable pub serve_prometheus_metrics : Result String String → String → Scrape
serve_prometheus_metrics (err e) format_type = record {
  status = 500;
  content_type = none;
  body = "failed to encode metrics";
}
serve_prometheus_metrics (ok buffer) format_type = record {
  status = 200;
  content_type = some format_type;
  body = buffer;
}

-- A route for the `GET` requests of a path, with what its handler answers.
pub record GetRoute : Type 0 where
  pub path : String
  pub handler : Unit {0} → Scrape

-- A scrape gathers and encodes what the registry holds then.
pub prometheus_router : (Unit {0} → Result String String) → String → GetRoute
unfolding serve_prometheus_metrics
prometheus_router encode format_type = record {
  path = "/metrics";
  handler = λ call. serve_prometheus_metrics (encode call) format_type;
}
