-- ===== src/Example/Main/Succeeds.antt =====
-- When `main` returns without an error.
use modular_rust_platform.Base.{
  ℕ, String, true, false, Option, none, some, List, [], Result, ok, ◌≡◌, refl, subst, ◌↔◌,
  none-ne-some, false-ne-true, Map,
}
use modular_rust_platform.Security.Builder.{Matchit, Chain}
use modular_rust_platform.Di.Container.{Cell}
use modular_rust_platform.Di.Context.{Environment, ApplicationContext, Registration, validate}
use modular_rust_platform.Di.Container.Resolve.{done}
use modular_rust_platform.Seaorm.QueryTracing.{query_tracing_config_from_env}
use modular_rust_platform.Seaorm.DbConfig.{Database, DbConfig, from_url}
use modular_rust_platform.Launcher.Observability.{
  Kind, tracer, meter, logger, Exporters, holds, guard_of, init_observability,
}
use modular_rust_platform.Launcher.Run.{OpenApi, Stage, RunError, run}
use modular_rust_platform.Launcher.Run.Shutdown.{run_iff}
use modular_rust_platform.Example.Access.{AppClaims, build_authorization}
use modular_rust_platform.Example.Startup.{
  Startup, started, failed, hung, build_context, context_with, build_context_iff,
}
use modular_rust_platform.Example.Main.{
  Exit, ran, startup_failed, main_panicked, main_hung, demo_config, demo_jwt_config, serve_context,
  after_startup, main,
}

module _ (lib : Matchit) (database : Database)
    (migrate : database.Connection → Result (Unit {0}) String) (instance : DbConfig database → ℕ)
    (db_type : ℕ) (collected : List Registration) (bind : ℕ → Result (Unit {0}) String)
    (serve : Result (Unit {0}) String) (stop : Kind → Result (Unit {0}) String)
    (exporters : Exporters) (openapi : OpenApi) where
  -- `main` returns without an error.
  abbrev pub Succeeds : Exit lib → Type 0
  Succeeds (ran ctx chain stages result) = result ≡ ok tt
  Succeeds (startup_failed e) = ⊥
  Succeeds main_panicked = ⊥
  Succeeds main_hung = ⊥

  abbrev running : List Stage × Result (Unit {0}) RunError
  running = run bind serve stop exporters demo_config openapi true false false

  no_provider : (kind : Kind) → holds (guard_of false false false false) kind ≡ true → ⊥
  no_provider tracer h = false-ne-true h
  no_provider meter h = false-ne-true h
  no_provider logger h = false-ne-true h

  running_iff : (running.1 ≡ ok tt) ↔ ((bind 8080 ≡ ok tt) × (serve ≡ ok tt))
  unfolding init_observability
  running_iff =
      let rest = run_iff bind serve stop exporters demo_config openapi true false false in
      (
        (λ h. let (guard, made, bound, ended, stopped) = rest.0 h in (bound, ended)),
        λ (bound, ended). rest.1 (
          guard_of false false false false,
          refl,
          bound,
          ended,
          λ kind held. absurd (no_provider kind held),
        ),
      )

  abbrev served_context : ApplicationContext → Option (Chain lib AppClaims) → Exit lib
  served_context =
      serve_context lib database migrate instance db_type collected bind serve stop exporters
        openapi

  serve_context_iff :
      (ctx : ApplicationContext) (o : Option (Chain lib AppClaims))
      → Succeeds (served_context ctx o)
        ↔ ((chain : Chain lib AppClaims) × (o ≡ some chain) × (running.1 ≡ ok tt))
  unfolding serve_context
  serve_context_iff ctx none = ((λ h. absurd h), λ (chain, e, h). absurd (none-ne-some e))
  serve_context_iff ctx (some chain) = ((λ h. (chain, refl, h)), λ (other, e, h). h)

  abbrev exit_of : Startup → Exit lib
  exit_of =
      after_startup lib database migrate instance db_type collected bind serve stop exporters
        openapi

  after_startup_iff :
      (s : Startup)
      → Succeeds (exit_of s) ↔ (
          (ctx : ApplicationContext) × (cells : Map Cell) × (s ≡ started ctx cells)
          × Succeeds (served_context ctx (build_authorization lib demo_jwt_config)))
  unfolding after_startup
  after_startup_iff (started ctx cells) = (
    (λ h. (ctx, cells, refl, h)),
    λ (other, m, e, h).
        let same : other ≡ ctx = cc in
        subst (λ c. Succeeds (served_context c (build_authorization lib demo_jwt_config))) same h,
  )
  after_startup_iff (failed e) = ((λ h. absurd h), λ (ctx, m, e, h). absurd (cc))
  after_startup_iff Startup.panicked = ((λ h. absurd h), λ (ctx, m, e, h). absurd (cc))
  after_startup_iff hung = ((λ h. absurd h), λ (ctx, m, e, h). absurd (cc))

  -- `main` returns without an error exactly if DATABASE_URL is set, the database is reached, the migration
  -- succeeds, the context validates, the authorization is built, the port 8080 is bound, and the server
  -- ends without an error.
  pub main_iff :
      (env : Environment)
      → Succeeds (
          main lib database migrate instance db_type collected bind serve stop exporters openapi
            env)
        ↔ ((url : String) × (db : DbConfig database) × (cells : Map Cell) × (chain : Chain lib
              AppClaims)
            × (env "DATABASE_URL" ≡ some url)
            × (from_url database url (query_tracing_config_from_env env) ≡ ok db)
            × (migrate db.connection ≡ ok tt)
            × (validate (context_with database migrate instance db_type collected env db)
                ≡ done [] cells)
            × (build_authorization lib demo_jwt_config ≡ some chain)
            × (bind 8080 ≡ ok tt)
            × (serve ≡ ok tt))
  unfolding main
  main_iff env = (
    (λ h.
        let (ctx, cells, built, h1) = (after_startup_iff (startup env)).0 h in
        let (url, db, there, connected, migrated, same, valid) =
          (build_context_iff database migrate instance db_type collected env ctx cells).0 built in
        let (chain, authorized, h2) = (serve_context_iff ctx _).0 h1 in
        let (bound, ended) = running_iff.0 h2 in
        (url, db, cells, chain, there, connected, migrated, valid, authorized, bound, ended)),
    λ (url, db, cells, chain, there, connected, migrated, valid, authorized, bound, ended).
        (after_startup_iff (startup env)).1 (
          context_with database migrate instance db_type collected env db,
          cells,
          (build_context_iff database migrate instance db_type collected env _ cells).1
              (url, db, there, connected, migrated, refl, valid),
          (serve_context_iff _ _).1 (chain, authorized, running_iff.1 (bound, ended)),
        ),
  )
    where
      startup : Environment → Startup
      startup = build_context database migrate instance db_type collected
