-- ===== src/Di/Container/Resolve/Typed.antt =====
-- Stored instances have the type of their cell, so that a downcast does not fail, and a component
-- that was returned once is returned again.
use modular_rust_platform.Base.{
  ℕ, zero, suc, ◌≡◌, subst, inl, inr, Bool-cases, Option-cases, some, Map, get, insert, get-insert,
  ◌==◌, ==_iff, arith,
}
use modular_rust_platform.Di.Container.{
  TypeId, type_id_of, trait_type_id, Container, AnyValue, concrete, trait_arc, found, Request,
  component, trait_object, Build, instance_of, panic, ask, Factory, Cell, unset, running, ready,
}
use modular_rust_platform.Di.Container.Resolve.{
  Run, done, panicked, deadlocked, out_of_fuel, settle, get_or_init, try_lookup, downcast,
  downcast_run, Lookup, exec, and_then, key_of,
}

abbrev pub Fits : TypeId → AnyValue → Type 0
Fits id (concrete t v) = id ≡ type_id_of t
Fits id (trait_arc t v) = id ≡ trait_type_id t

abbrev pub TypedCells : Map Cell → Type 0
TypedCells m = (k : TypeId) (v : AnyValue) → get m k ≡ some (ready v) → Fits k v

abbrev pub TypedFactories : Container → Type 0
TypedFactories c =
    (k : TypeId) (f : Factory) → get c.factories k ≡ some f → (v : ℕ) → Fits k (f.wrap v)

abbrev pub Sound : {A : Type 0} → Run A → Type 0
Sound (done a m) = TypedCells m
Sound (panicked m) = TypedCells m
Sound deadlocked = Unit
Sound out_of_fuel = Unit

TypedCells-insert :
    (id : TypeId) (cell : Cell) (m : Map Cell)
    → ((v : AnyValue) → cell ≡ ready v → Fits id v)
    → TypedCells m
    → TypedCells (insert id cell m)
TypedCells-insert id cell m fits h k v e = elim (Bool-cases (id == k)) [
  | inl same ↦
      subst (λ x. Fits x v) ((==_iff id k).0 same) (fits v (ground (arith, get-insert id cell m k)))
  | inr other ↦ h k v (ground (arith, get-insert id cell m k))
]

and_then-Sound :
    {A B : Type 0} (r : Run A) (next : A → Map Cell → Run B)
    → Sound r
    → ((a : A) (m : Map Cell) → TypedCells m → Sound (next a m))
    → Sound (and_then r next)
and_then-Sound (done a m) next h k = k a m h
and_then-Sound (panicked m) next h k = h
and_then-Sound deadlocked next h k = tt
and_then-Sound out_of_fuel next h k = tt

exec-Sound :
    (look : Lookup)
    → ((r : Request) (m : Map Cell) → TypedCells m → Sound (look r m))
    → (b : Build) (m : Map Cell) → TypedCells m
    → Sound (exec look b m)
unfolding exec
exec-Sound look answers (instance_of v) m h = h
exec-Sound look answers panic m h = h
exec-Sound look answers (ask r next) m h =
    and_then-Sound (look r m) (λ a. exec look (next a)) (answers r m h)
      (λ a m' h'. exec-Sound look answers (next a) m' h')

settle-Sound :
    (id : TypeId) (f : Factory) (r : Run ℕ)
    → ((v : ℕ) → Fits id (f.wrap v))
    → Sound r
    → Sound (settle id f r)
unfolding settle
settle-Sound id f (done v m) fits h =
    TypedCells-insert id (ready (f.wrap v)) m
      (λ u e. let same : f.wrap v ≡ u = cc in subst (Fits id) same (fits v)) h
settle-Sound id f (panicked m) fits h = TypedCells-insert id unset m (λ u e. cc) h
settle-Sound id f deadlocked fits h = tt
settle-Sound id f out_of_fuel fits h = tt

downcast_run-Sound :
    (c : Container) (r : Request) (a : Run AnyValue) → Sound a → Sound (downcast_run c r a)
unfolding downcast_run
downcast_run-Sound c r (done v m) h = h
downcast_run-Sound c r (panicked m) h = h
downcast_run-Sound c r deadlocked h = tt
downcast_run-Sound c r out_of_fuel h = tt

module _ (c : Container) (typed : TypedFactories c) where
  pub init-Sound :
      (look : Lookup)
      → ((r : Request) (m : Map Cell) → TypedCells m → Sound (look r m))
      → (id : TypeId) (cell : Cell) (m : Map Cell) → TypedCells m
      → Sound (get_or_init c look id cell m)
  unfolding get_or_init
  init-Sound look answers id (ready v) m h = h
  init-Sound look answers id running m h = tt
  init-Sound look answers id unset m h = elim (Option-cases (get c.factories id)) [
    | inl missing ↦ rw (missing, get_or_init) h
    | inr (f, known) ↦
        rw (known, get_or_init)
          (settle-Sound id f _ (typed id f known) (
            exec-Sound look answers f.build (insert id running m)
              (TypedCells-insert id running m (λ v e. cc) h)))
  ]

  pub lookup-Sound :
      (fuel : ℕ) (r : Request) (m : Map Cell) → TypedCells m → Sound (try_lookup c fuel r m)
  unfolding try_lookup
  lookup-Sound zero r m h = tt
  lookup-Sound (suc fuel) r m h = elim (Option-cases (get m (key_of r))) [
    | inl missing ↦ rw (missing, try_lookup) h
    | inr (cell, known) ↦
        rw (known, try_lookup)
          (downcast_run-Sound c r _
            (init-Sound (try_lookup c fuel) (lookup-Sound fuel) (key_of r) cell m h))
  ]

-- An instance that fits the requested type is found.
pub downcast_lem :
    (r : Request) (v : AnyValue) → Fits (key_of r) v → (u : ℕ) × (downcast r v ≡ found u)
unfolding downcast
downcast_lem (component t name) (concrete u v) h = (v, ground arith)
downcast_lem (component t name) (trait_arc u v) h = absurd (omega arith)
downcast_lem (trait_object t name) (concrete u v) h = absurd (omega arith)
downcast_lem (trait_object t name) (trait_arc u v) h = (v, ground arith)
