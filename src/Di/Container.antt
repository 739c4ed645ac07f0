-- ===== src/Di/Container.antt =====
-- crates/stano-di/src/container.rs: the registry, its registrations and the read-only accessors.
-- A Rust type is a number; `TypeId::of::<T>()` of a component type and of the wrapper
-- `TraitObject<T>` of a trait are different numbers. A `HashMap` is an association list.
-- A component's value is a number: the container only stores and hands on the `Arc` around it.
pub mod Display
pub mod Cycles
pub mod Registration
pub mod Resolve
pub mod Safety
use modular_rust_platform.Base.{
  ℕ, zero, suc, ◌+◌, ◌*◌, String, Bool, true, false, Option, none, some, List, [], ◌∷◌, map, Map,
  get, insert, keys, ◌≡◌, contains_key, length, ◌==◌,
}

abbrev pub TypeId : Type 0
TypeId = ℕ

-- `TypeId::of::<T>()` of the component type `T`.
abbrev pub type_id_of : ℕ → TypeId
type_id_of t = 2 * t

-- `TraitObject::<T>::type_id()`.
abbrev pub trait_type_id : ℕ → TypeId
trait_type_id t = 2 * t + 1

pub data ContainerError : Type 0 where
  not_registered : String → ContainerError
  downcast_failed : String → ContainerError
  factory_panic : String → ContainerError
  cyclic_dependency : List String → ContainerError

-- `Arc<dyn Any>`: an `Arc<T>` of a component type, or an `Arc<Arc<T>>` of a trait.
pub data AnyValue : Type 0 where
  concrete : ℕ → ℕ → AnyValue
  trait_arc : ℕ → ℕ → AnyValue

pub data Answer : Type 0 where
  found : ℕ → Answer
  failed : ContainerError → Answer

-- What a lookup asks for: a component type or a trait, with its `type_name`.
pub data Request : Type 0 where
  component : ℕ → String → Request
  trait_object : ℕ → String → Request

-- The body of a factory, which is code of the application: it may look up other components with
-- `try_get` or `try_get_trait`, it may panic, and it ends with an instance.
pub data Build : Type 0 where
  instance_of : ℕ → Build
  panic : Build
  ask : Request → (Answer → Build) → Build

-- The wrapped factory of a registration: how its instance is stored, and its body.
pub record Factory : Type 0 where
  pub wrap : ℕ → AnyValue
  pub build : Build

-- `OnceLock`: `running` while its initialiser runs.
pub data Cell : Type 0 where
  unset : Cell
  running : Cell
  ready : AnyValue → Cell

pub record Container : Type 0 where
  pub factories : Map Factory
  pub singletons : Map Cell
  pub type_names : Map String
  pub dependencies : Map (List TypeId)

unfoldable pub new : Container
new = record { factories = []; singletons = []; type_names = []; dependencies = [] }

-- The four insertions that every registration ends with.
abbrev insert_all : TypeId → Factory → Cell → String → List TypeId → Container → Container
insert_all id factory cell name deps c = record {
  factories = insert id factory c.factories;
  singletons = insert id cell c.singletons;
  type_names = insert id name c.type_names;
  dependencies = insert id deps c.dependencies;
}

unfoldable pub register_with_deps : ℕ → Build → String → List TypeId → Container → Container
register_with_deps t factory name deps c =
    insert_all (type_id_of t) (record { wrap = concrete t; build = factory }) unset name deps c

unfoldable pub register_trait_with_deps : ℕ → Build → String → List TypeId → Container → Container
register_trait_with_deps t factory name deps c =
    insert_all (trait_type_id t) (record { wrap = trait_arc t; build = factory }) unset name deps c

-- `name` is `std::any::type_name::<T>()`.
unfoldable pub register : ℕ → Build → String → Container → Container
unfolding register_with_deps
register t factory name c = register_with_deps t factory name [] c

unfoldable pub register_trait : ℕ → Build → String → Container → Container
unfolding register_trait_with_deps
register_trait t factory name c = register_trait_with_deps t factory name [] c

unfoldable pub register_instance : ℕ → ℕ → String → Container → Container
register_instance t value name c =
    insert_all (type_id_of t) (record { wrap = concrete t; build = instance_of value })
      (ready (concrete t value)) name [] c

pub has : ℕ → Container → Bool
has t c = contains_key c.factories (type_id_of t)

pub has_trait : ℕ → Container → Bool
has_trait t c = contains_key c.factories (trait_type_id t)

pub len : Container → ℕ
len c = length c.factories

pub is_empty : Container → Bool
is_empty c = elim c.factories [ [] ↦ true | _ ∷ _ ↦ false ]

-- `self.dependencies.get(id)`, an unknown type having none.
abbrev pub deps_of : Container → TypeId → List TypeId
deps_of c id = elim (get c.dependencies id) [ none ↦ [] | some deps ↦ deps ]

-- `self.type_names.get(id)`, with "unknown" for a type that is not registered.
abbrev pub name_of : Container → TypeId → String
name_of c id = elim (get c.type_names id) [ none ↦ "unknown" | some name ↦ name ]

-- The `map` over the registered types of `dependency_graph`.
graph_nodes : Container → Map String → List (String × List String)
graph_nodes c [] = []
graph_nodes c ((id, name) ∷ rest) = (name, map (name_of c) (deps_of c id)) ∷ graph_nodes c rest

pub dependency_graph : Container → List (String × List String)
unfolding graph_nodes
dependency_graph c = graph_nodes c c.type_names

-- The four maps have the same keys, in the same order: each registration inserts into all of them.
pub record IsWellFormed (c : Container) : Type 0 where
  pub singleton_keys : keys c.singletons ≡ keys c.factories
  pub name_keys : keys c.type_names ≡ keys c.factories
  pub dependency_keys : keys c.dependencies ≡ keys c.factories
