-- ===== src/Di/Container/Registration.antt =====
-- Registrations of crates/stano-di/src/container.rs keep the four maps of the container in step.
use modular_rust_platform.Base.{ℕ, ◌≡◌, refl, Map, String, List, [], ◌∷◌, insert, keys, arith}
use modular_rust_platform.Di.Container.{
  TypeId, Container, Build, Factory, Cell, IsWellFormed, new, register_with_deps,
  register_trait_with_deps, register, register_trait, register_instance,
}

-- The keys after an insertion depend on the keys before it alone.
keys-insert {ℓ κ} :
    {V : Type ℓ} {W : Type κ} (k : ℕ) (v : V) (w : W) (m : Map V) (n : Map W)
    → keys m ≡ keys n
    → keys (insert k v m) ≡ keys (insert k w n)
keys-insert k v w [] [] h = refl
keys-insert k v w [] ((j, x) ∷ n) h = cc
keys-insert k v w ((i, y) ∷ m) [] h = cc
keys-insert k v w ((i, y) ∷ m) ((j, x) ∷ n) h = ground (arith, keys-insert k v w m n)

pub new-IsWellFormed : IsWellFormed new
unfolding new
new-IsWellFormed = record { singleton_keys = refl; name_keys = refl; dependency_keys = refl }

module _ (c : Container) (w : IsWellFormed c) where
  insert_all-IsWellFormed :
      (id : TypeId) (f : Factory) (cell : Cell) (name : String) (deps : List TypeId)
      → IsWellFormed record {
        factories = insert id f c.factories;
        singletons = insert id cell c.singletons;
        type_names = insert id name c.type_names;
        dependencies = insert id deps c.dependencies;
      }
  insert_all-IsWellFormed id f cell name deps = record {
    singleton_keys = keys-insert id cell f c.singletons c.factories w.singleton_keys;
    name_keys = keys-insert id name f c.type_names c.factories w.name_keys;
    dependency_keys = keys-insert id deps f c.dependencies c.factories w.dependency_keys;
  }

  -- Every way to register a component keeps the four maps in step.
  pub registrations-IsWellFormed :
      (t : ℕ) (factory : Build) (value : ℕ) (name : String) (deps : List TypeId)
      → IsWellFormed (register_with_deps t factory name deps c)
        × IsWellFormed (register_trait_with_deps t factory name deps c)
        × IsWellFormed (register t factory name c)
        × IsWellFormed (register_trait t factory name c)
        × IsWellFormed (register_instance t value name c)
  unfolding register_with_deps register_trait_with_deps register register_trait register_instance
  registrations-IsWellFormed t factory value name deps = (
    insert_all-IsWellFormed _ _ _ name deps,
    insert_all-IsWellFormed _ _ _ name deps,
    insert_all-IsWellFormed _ _ _ name [],
    insert_all-IsWellFormed _ _ _ name [],
    insert_all-IsWellFormed _ _ _ name [],
  )
