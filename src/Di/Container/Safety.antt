-- ===== src/Di/Container/Safety.antt =====
-- What every registration keeps, and what `validate` and the lookups of crates/stano-di promise for
-- a container that was assembled by registrations.
use modular_rust_platform.Base.{
  ℕ, ◌≡◌, refl, ◌≢◌, sym, subst, inl, inr, Map, String, List, [], some, insert, get, keys, arith,
  ◌==◌, ==_iff, get-insert, Bool-cases, In, suc,
}
use modular_rust_platform.Di.Container.{
  TypeId, Container, ContainerError, Build, Factory, Cell, unset, running, ready, AnyValue,
  concrete, IsWellFormed, new, register_with_deps, register_trait_with_deps, register,
  register_trait, register_instance, deps_of, type_id_of, Request, found, instance_of,
}
use modular_rust_platform.Di.Container.Registration.{new-IsWellFormed, registrations-IsWellFormed}
use modular_rust_platform.Di.Container.Resolve.{done, validate, try_lookup, key_of}
use modular_rust_platform.Di.Container.Resolve.Cells.{Grows}
use modular_rust_platform.Di.Container.Resolve.Declared.{Declares, AllDeclared}
use modular_rust_platform.Di.Container.Resolve.Validation.{validate_total}
use modular_rust_platform.Di.Container.Resolve.Passes.{Idle}
use modular_rust_platform.Di.Container.Resolve.Typed.{Fits, TypedCells, TypedFactories}
use modular_rust_platform.Di.Container.Resolve.Singletons.{lookup_validated}

pub record IsSafe (c : Container) : Type 0 where
  pub well_formed : IsWellFormed c
  pub declared : AllDeclared c
  pub idle : Idle c.singletons
  pub typed_factories : TypedFactories c
  pub typed_cells : TypedCells c.singletons

pub new-IsSafe : IsSafe new
unfolding new
new-IsSafe = record {
  well_formed = new-IsWellFormed;
  declared = λ id f e. cc;
  idle = λ k e. cc;
  typed_factories = λ k f e. cc;
  typed_cells = λ k v e. cc;
}

module _ (c : Container) (h : IsSafe c) (id : TypeId) (f : Factory) (cell : Cell) (name : String)
    (deps : List TypeId) where
  abbrev Inserted : Container
  Inserted = record {
    factories = insert id f c.factories;
    singletons = insert id cell c.singletons;
    type_names = insert id name c.type_names;
    dependencies = insert id deps c.dependencies;
  }

  insert_all-IsSafe :
      IsWellFormed Inserted
      → Declares deps f.build
      → ((v : ℕ) → Fits id (f.wrap v))
      → cell ≢ running
      → ((v : AnyValue) → cell ≡ ready v → Fits id v)
      → IsSafe Inserted
  insert_all-IsSafe w d fits idle set = record {
    well_formed = w;
    declared = λ k g e. elim (Bool-cases (id == k)) [
      | inl same ↦
          let at : get (insert id f c.factories) k ≡ some f =
            ground (arith, get-insert id f c.factories k) in
          let is_f : f ≡ g = cc in
          let its : deps_of Inserted k ≡ deps =
            ground (arith, get-insert id deps c.dependencies k) in
          subst (λ x. Declares x g.build) (sym its) (subst (λ x. Declares deps x.build) is_f d)
      | inr other ↦
          let its : deps_of Inserted k ≡ deps_of c k =
            ground (arith, get-insert id deps c.dependencies k) in
          subst (λ x. Declares x g.build) (sym its)
            (h.declared k g (ground (arith, get-insert id f c.factories k)))
    ];
    idle = λ k e. ground (arith, get-insert id cell c.singletons k, h.idle k);
    typed_factories = λ k g e. elim (Bool-cases (id == k)) [
      | inl same ↦
          let at : get (insert id f c.factories) k ≡ some f =
            ground (arith, get-insert id f c.factories k) in
          let is_f : f ≡ g = cc in
          λ v.
            subst (λ x. Fits x (g.wrap v)) ((==_iff id k).0 same)
              (subst (λ x. Fits id (x.wrap v)) is_f (fits v))
      | inr other ↦ h.typed_factories k g (ground (arith, get-insert id f c.factories k))
    ];
    typed_cells = λ k v e. elim (Bool-cases (id == k)) [
      | inl same ↦
          subst (λ x. Fits x v) ((==_iff id k).0 same)
            (set v (ground (arith, get-insert id cell c.singletons k)))
      | inr other ↦ h.typed_cells k v (ground (arith, get-insert id cell c.singletons k))
    ];
  }

-- Each way to register a component keeps a container safe, if the factory looks up only what is
-- declared for it: the given dependencies, or none for `register` and `register_trait`.
pub registrations-IsSafe :
    (c : Container)
    → IsSafe c
    → (t : ℕ) (factory plain : Build) (value : ℕ) (name : String) (deps : List TypeId)
    → Declares deps factory
    → Declares [] plain
    → IsSafe (register_with_deps t factory name deps c)
      × IsSafe (register_trait_with_deps t factory name deps c)
      × IsSafe (register t plain name c)
      × IsSafe (register_trait t plain name c)
      × IsSafe (register_instance t value name c)
unfolding register_with_deps register_trait_with_deps register register_trait register_instance
registrations-IsSafe c h t factory plain value name deps d p =
    let w = registrations-IsWellFormed c h.well_formed t factory value name deps in
    let v = registrations-IsWellFormed c h.well_formed t plain value name deps in
    (
      insert_all-IsSafe c h _ _ unset name deps w.0 d (λ v. refl) (λ e. cc) (λ v e. cc),
      insert_all-IsSafe c h _ _ unset name deps w.1 d (λ v. refl) (λ e. cc) (λ v e. cc),
      insert_all-IsSafe c h _ _ unset name [] v.2 p (λ v. refl) (λ e. cc) (λ v e. cc),
      insert_all-IsSafe c h _ _ unset name [] v.3 p (λ v. refl) (λ e. cc) (λ v e. cc),
      insert_all-IsSafe c h (type_id_of t) (record { wrap = concrete t; build = instance_of value })
          (ready (concrete t value)) name [] w.4 tt (λ v. refl) (λ e. cc)
          (λ v e. let same : concrete t value ≡ v = cc in subst (Fits (type_id_of t)) same refl),
    )

-- For a safe container `validate` returns a list of errors: it does not panic, deadlock or recurse
-- for ever, whatever the factories do, and it changes the cells only by setting unset ones.
pub validate_returns :
    (c : Container)
    → IsSafe c
    → (errors : List ContainerError) × (m : Map Cell) × (validate c ≡ done errors m)
      × Grows c.singletons m
validate_returns c h = validate_total c h.well_formed h.declared h.idle

-- For a safe container that `validate` accepts, every lookup of a registered type returns an instance,
-- with no error, panic or deadlock, and changes no cell.
pub validate-lookup :
    (c : Container)
    → IsSafe c
    → (m : Map Cell) → validate c ≡ done [] m
    → (r : Request) → In (key_of r) (keys c.factories)
    → (fuel : ℕ) → (v : ℕ) × (try_lookup c (suc fuel) r m ≡ done (found v) m)
validate-lookup c h =
    lookup_validated c h.well_formed h.declared h.idle h.typed_factories h.typed_cells
