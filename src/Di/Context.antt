-- ===== src/Di/Context.antt =====
-- `ApplicationContext` of crates/stano-di/src/application_context.rs, `register_all` of
-- crates/stano-di/src/lib.rs and `MockEnvironment` of crates/stano-di/src/environment.rs.
-- A registration that `inventory` collects is a function on containers; the order in which they are
-- collected is that of the list.
use modular_rust_platform.Base.{
  ℕ, String, Option, List, [], ◌∷◌, ◌≡◌, none, some, str_eq, if◌then◌else◌, All, In, keys, Map, suc,
}
use modular_rust_platform.Di.Container
use modular_rust_platform.Di.Container.{
  Container, ContainerError, Build, TypeId, Cell, Answer, Request, found,
}
use modular_rust_platform.Di.Container.Safety.{
  IsSafe, new-IsSafe, validate_returns, validate-lookup,
}
use modular_rust_platform.Di.Container.Resolve
use modular_rust_platform.Di.Container.Resolve.{Run, done, try_lookup, key_of}

-- `Environment::get`
abbrev pub Environment : Type 0
Environment = String → Option String

-- The test environment: `with_var` overwrites, `remove_var` unsets.
pub with_var : String → String → Environment → Environment
with_var key value env k = if str_eq key k then some value else env k

pub remove_var : String → Environment → Environment
remove_var key env k = if str_eq key k then none else env k

pub record ApplicationContext : Type 0 where
  pub environment : Environment
  pub container : Container

-- `T::register` of a `Component`, and a collected `ServiceRegistration`.
abbrev pub Registration : Type 0
Registration = Container → Container

unfoldable pub register_services : List Registration → Container → Container
register_services [] c = c
register_services (r ∷ rs) c = register_services rs (r c)

unfoldable pub create : Environment → ApplicationContext
create environment = record { environment = environment; container = Container.new }

pub register : ℕ → Build → String → ApplicationContext → ApplicationContext
register t factory name ctx = record ctx {
  container = Container.register t factory name ctx.container;
}

pub register_trait : ℕ → Build → String → ApplicationContext → ApplicationContext
register_trait t factory name ctx = record ctx {
  container = Container.register_trait t factory name ctx.container;
}

unfoldable pub register_instance : ℕ → ℕ → String → ApplicationContext → ApplicationContext
register_instance t value name ctx = record ctx {
  container = Container.register_instance t value name ctx.container;
}

pub register_component : Registration → ApplicationContext → ApplicationContext
register_component r ctx = record ctx { container = r ctx.container }

unfoldable pub register_all : List Registration → ApplicationContext → ApplicationContext
unfolding register_services
register_all rs ctx = record ctx { container = register_services rs ctx.container }

pub get_component : ℕ → String → ApplicationContext → Run ℕ
get_component t name ctx = Resolve.get_component ctx.container t name

pub get_trait : ℕ → String → ApplicationContext → Run ℕ
get_trait t name ctx = Resolve.get_trait ctx.container t name

pub try_get : ℕ → String → ApplicationContext → Run Answer
try_get t name ctx = Resolve.try_get ctx.container t name

pub try_get_trait : ℕ → String → ApplicationContext → Run Answer
try_get_trait t name ctx = Resolve.try_get_trait ctx.container t name

unfoldable pub validate : ApplicationContext → Run (List ContainerError)
validate ctx = Resolve.validate ctx.container

-- A registration that keeps containers safe.
abbrev pub KeepsSafe : Registration → Type 0
KeepsSafe r = (c : Container) → IsSafe c → IsSafe (r c)

pub register_services-IsSafe :
    (rs : List Registration) (c : Container)
    → All KeepsSafe rs
    → IsSafe c
    → IsSafe (register_services rs c)
unfolding register_services
register_services-IsSafe [] c keep h = h
register_services-IsSafe (r ∷ rs) c (k, ks) h = register_services-IsSafe rs (r c) ks (k c h)

-- Validation of a context that starts empty and is filled by `register_all` returns its errors, for
-- collected registrations that keep containers safe, in any order and number.
pub register_all-validate :
    (env : Environment) (rs : List Registration)
    → All KeepsSafe rs
    → (errors : List ContainerError) × (m : Map Cell) × (validate (register_all rs (create env))
        ≡ done errors m)
unfolding validate register_all create
register_all-validate env rs keep =
    let safe = register_services-IsSafe rs Container.new keep new-IsSafe in
    let (errors, m, returned, grows) = validate_returns (register_services rs Container.new) safe in
    (errors, m, returned)

-- In a context that is filled by such registrations and passes validation, each registered type can
-- be looked up.
pub register_all-lookup :
    (env : Environment) (rs : List Registration)
    → All KeepsSafe rs
    → (m : Map Cell) → validate (register_all rs (create env)) ≡ done [] m
    → (r : Request) → In (key_of r) (keys (register_all rs (create env)).container.factories)
    → (fuel : ℕ)
    → (v : ℕ) × (try_lookup (register_all rs (create env)).container (suc fuel) r m
        ≡ done (found v) m)
unfolding validate register_all create
register_all-lookup env rs keep =
    validate-lookup (register_services rs Container.new)
      (register_services-IsSafe rs Container.new keep new-IsSafe)
