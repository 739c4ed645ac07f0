-- ===== src/Example/Startup.antt =====
-- `build_context` of crates/stano-example-app/launcher, and `connect` of crates/stano-example-app/persistence. The
-- migration is a parameter; `instance` numbers the instance of `DbConfig`, and `db_type` its type.
use modular_rust_platform.Base.{
  ℕ, suc, String, none, some, List, [], ◌∷◌, Result, ok, err, ◌≡◌, sym, ap, ◌∙◌, subst, inl, inr,
  All, In, ◌↔◌, keys, Map, Option-cases, Result-cases,
}
use modular_rust_platform.Di.Container
use modular_rust_platform.Di.Container.{
  Container, ContainerError, Cell, Request, found, instance_of, panic,
}
use modular_rust_platform.Di.Container.Resolve.{
  Run, done, deadlocked, out_of_fuel, try_lookup, key_of,
}
use modular_rust_platform.Di.Container.Safety.{
  IsSafe, new-IsSafe, registrations-IsSafe, validate-lookup,
}
use modular_rust_platform.Di.Context.{
  Environment, ApplicationContext, Registration, create, register_instance, register_all, validate,
  KeepsSafe, register_services-IsSafe,
}
use modular_rust_platform.Seaorm.QueryTracing.{query_tracing_config_from_env}
use modular_rust_platform.Seaorm.DbConfig.{Database, DbConfig, DbConfigError, from_url}

pub data StartupError : Type 0 where
  database_url_missing : StartupError
  connect_failed : DbConfigError → StartupError
  migration_failed : String → StartupError

-- A context with the instances that its validation built, an error, a panic, or a validation that does
-- not return.
pub data Startup : Type 0 where
  started : ApplicationContext → Map Cell → Startup
  failed : StartupError → Startup
  panicked : Startup
  hung : Startup

-- `.expect("all registered components must resolve")`
unfoldable pub expect_valid : ApplicationContext → Run (List ContainerError) → Startup
expect_valid ctx (done [] m) = started ctx m
expect_valid ctx (done (e ∷ errors) m) = panicked
expect_valid ctx (Run.panicked m) = panicked
expect_valid ctx deadlocked = hung
expect_valid ctx out_of_fuel = hung

module _ (database : Database) (migrate : database.Connection → Result (Unit {0}) String)
    (instance : DbConfig database → ℕ) (db_type : ℕ) (collected : List Registration) where
  unfoldable pub context_with : Environment → DbConfig database → ApplicationContext
  unfolding create register_instance register_all
  context_with env db =
      register_all collected (register_instance db_type (instance db) "DbConfig" (create env))

  unfoldable pub build_context : Environment → Startup
  unfolding expect_valid context_with from_url validate
  build_context env = elim (env "DATABASE_URL") [
    | none ↦ failed database_url_missing
    | some database_url ↦
        elim (from_url database database_url (query_tracing_config_from_env env)) [
          | err e ↦ failed (connect_failed e)
          | ok db ↦ elim (migrate db.connection) [
            | err e ↦ failed (migration_failed e)
            | ok _ ↦ expect_valid (context_with env db) (validate (context_with env db))
          ]
        ]
  ]

  expect_valid-started :
      (ctx started_ctx : ApplicationContext) (r : Run (List ContainerError)) (m : Map Cell)
      → expect_valid ctx r ≡ started started_ctx m
      → (r ≡ done [] m) × (ctx ≡ started_ctx)
  unfolding expect_valid
  expect_valid-started ctx started_ctx (done [] n) m e = (cc, cc)
  expect_valid-started ctx started_ctx (done (x ∷ xs) n) m e = cc
  expect_valid-started ctx started_ctx (Run.panicked n) m e = cc
  expect_valid-started ctx started_ctx deadlocked m e = cc
  expect_valid-started ctx started_ctx out_of_fuel m e = cc

  failed-ne-started :
      {failure : StartupError} {ctx : ApplicationContext} {m : Map Cell}
      → failed failure ≡ started ctx m
      → ⊥
  failed-ne-started e = cc

  -- A context that is built passed its validation, and is that of a database it is connected to.
  pub build_context_iff :
      (env : Environment) (ctx : ApplicationContext) (m : Map Cell)
      → (build_context env ≡ started ctx m) ↔ (
          (url : String) × (db : DbConfig database) × (env "DATABASE_URL" ≡ some url)
          × (from_url database url (query_tracing_config_from_env env) ≡ ok db)
          × (migrate db.connection ≡ ok tt)
          × (ctx ≡ context_with env db)
          × (validate (context_with env db) ≡ done [] m))
  unfolding build_context
  build_context_iff env ctx m = (to, from)
    where
      to :
          build_context env ≡ started ctx m
          → (url : String) × (db : DbConfig database) × (env "DATABASE_URL" ≡ some url)
            × (from_url database url (query_tracing_config_from_env env) ≡ ok db)
            × (migrate db.connection ≡ ok tt)
            × (ctx ≡ context_with env db)
            × (validate (context_with env db) ≡ done [] m)
      to e = elim (Option-cases (env "DATABASE_URL")) [
        | inl missing ↦ absurd (failed-ne-started (rw (missing, build_context) at e))
        | inr (url, there) ↦
            let connecting = rw (there, build_context) at e in
            elim (Result-cases (from_url database url (query_tracing_config_from_env env))) [
              | inr (failure, f) ↦ absurd (failed-ne-started (rw (f, build_context) at connecting))
              | inl (db, f) ↦
                  let migrating = rw (f, build_context) at connecting in
                  elim (Result-cases (migrate db.connection)) [
                    | inr (failure, g) ↦
                        absurd (failed-ne-started (rw (g, build_context) at migrating))
                    | inl (u, g) ↦
                        let (valid, same) =
                          expect_valid-started (context_with env db) ctx
                            (validate (context_with env db)) m
                            (rw (g, build_context) at migrating) in
                        (url, db, there, f, g, sym same, valid)
                  ]
            ]
      ]

      from :
          ((url : String) × (db : DbConfig database) × (env "DATABASE_URL" ≡ some url)
            × (from_url database url (query_tracing_config_from_env env) ≡ ok db)
            × (migrate db.connection ≡ ok tt)
            × (ctx ≡ context_with env db)
            × (validate (context_with env db) ≡ done [] m))
          → build_context env ≡ started ctx m
      from (url, db, there, f, g, same, valid) =
          rw (there, build_context)
            (rw (f, build_context)
              (rw (g, build_context)
                (ap (expect_valid (context_with env db)) valid
                  ∙ ap (λ (c : ApplicationContext). started c m) (sym same))))

  context_with-IsSafe :
      (env : Environment) (db : DbConfig database)
      → All KeepsSafe collected
      → IsSafe (context_with env db).container
  unfolding context_with create register_instance register_all
  context_with-IsSafe env db keep =
      register_services-IsSafe collected _ keep
        (registrations-IsSafe Container.new new-IsSafe db_type (instance_of 0) panic (instance db)
          "DbConfig" [] tt tt).4

  -- If the application starts, then each type that is registered in its context can be looked up there,
  -- for collected registrations that keep containers safe, as those of `#[service]` do.
  pub build_context-lookup :
      All KeepsSafe collected
      → (env : Environment) (ctx : ApplicationContext) (m : Map Cell)
      → build_context env ≡ started ctx m
      → (r : Request) → In (key_of r) (keys ctx.container.factories)
      → (fuel : ℕ) → (v : ℕ) × (try_lookup ctx.container (suc fuel) r m ≡ done (found v) m)
  unfolding validate
  build_context-lookup keep env ctx m e =
      let (url, db, there, connected, migrated, same, valid) = (build_context_iff env ctx m).0 e in
      validate-lookup ctx.container
        (subst (λ (c : ApplicationContext). IsSafe c.container) (sym same)
          (context_with-IsSafe env db keep))
        m (ap validate same ∙ valid)
