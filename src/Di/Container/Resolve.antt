-- ===== src/Di/Container/Resolve.antt =====
-- The lookups and `validate` of crates/stano-di/src/container.rs. Only `singletons` changes (the
-- `OnceLock`s in it), so a lookup maps the cells to the cells afterwards. A lookup takes fuel for
-- the nesting of factories, which `Resolve.Totality` compares with the number of unset cells.
-- `OnceLock::get_or_init` called again from its own initialiser has no specified outcome
-- in std (it deadlocks today): that is the outcome `deadlocked`.
pub mod Cells
pub mod Declared
pub mod Totality
pub mod Passes
pub mod Validation
pub mod Typed
pub mod Singletons
use modular_rust_platform.Base.{
  ℕ, zero, suc, ◌+◌, String, Bool, Option, none, some, List, [], ◌∷◌, ◌++◌, Map, get, insert, keys,
  ◌==◌, if◌then◌else◌, length,
}
use modular_rust_platform.Di.Container.{
  TypeId, type_id_of, trait_type_id, Container, ContainerError, not_registered, downcast_failed,
  factory_panic, AnyValue, concrete, trait_arc, Answer, found, failed, Request, component,
  trait_object, Build, instance_of, panic, ask, Factory, Cell, unset, running, ready, name_of,
}
use modular_rust_platform.Di.Container.Cycles.{
  detect_cycles, Scan, scanned, out_of_fuel as scan_out_of_fuel, missing_color,
}

-- How code that may initialise components ends, with the cells that it leaves.
pub data Run (A : Type 0) : Type 0 where
  done : A → Map Cell → Run A
  panicked : Map Cell → Run A
  deadlocked : Run A
  out_of_fuel : Run A

abbrev pub key_of : Request → TypeId
key_of (component t name) = type_id_of t
key_of (trait_object t name) = trait_type_id t

abbrev pub request_name : Request → String
request_name (component t name) = name
request_name (trait_object t name) = name

-- `downcast::<T>()` of `try_get`, `downcast_ref::<Arc<T>>()` of `try_get_trait`.
unfoldable pub downcast : Request → AnyValue → Answer
downcast (component t name) (concrete u v) =
    if u == t then found v else failed (downcast_failed name)
downcast (component t name) (trait_arc u v) = failed (downcast_failed name)
downcast (trait_object t name) (trait_arc u v) =
    if u == t then found v else failed (downcast_failed name)
downcast (trait_object t name) (concrete u v) = failed (downcast_failed name)

abbrev pub Lookup : Type 0
Lookup = Request → Map Cell → Run Answer

-- A panic unwinds through the factories that wait for the result.
abbrev pub and_then : {A B : Type 0} → Run A → (A → Map Cell → Run B) → Run B
and_then (done a m) next = next a m
and_then (panicked m) next = panicked m
and_then deadlocked next = deadlocked
and_then out_of_fuel next = out_of_fuel

-- The body of a factory, whose lookups `look` answers.
unfoldable pub exec : Lookup → Build → Map Cell → Run ℕ
exec look (instance_of v) m = done v m
exec look panic m = panicked m
exec look (ask r next) m = and_then (look r m) (λ a. exec look (next a))

-- The end of `get_or_init`: the cell is set, or unset again if the initialiser panicked.
unfoldable pub settle : TypeId → Factory → Run ℕ → Run AnyValue
settle id f (done v m) = done (f.wrap v) (insert id (ready (f.wrap v)) m)
settle id f (panicked m) = panicked (insert id unset m)
settle id f deadlocked = deadlocked
settle id f out_of_fuel = out_of_fuel

module _ (c : Container) where
  -- `singleton.get_or_init(|| ...)`
  unfoldable pub get_or_init : Lookup → TypeId → Cell → Map Cell → Run AnyValue
  get_or_init look id (ready v) m = done v m
  get_or_init look id running m = deadlocked
  get_or_init look id unset m = elim (get c.factories id) [
    | none ↦ panicked m
    | some f ↦ settle id f (exec look f.build (insert id running m))
  ]

  unfoldable pub downcast_run : Request → Run AnyValue → Run Answer
  downcast_run r (done v m) = done (downcast r v) m
  downcast_run r (panicked m) = panicked m
  downcast_run r deadlocked = deadlocked
  downcast_run r out_of_fuel = out_of_fuel

  -- `try_get` and `try_get_trait`.
  unfoldable pub try_lookup : ℕ → Request → Map Cell → Run Answer
  try_lookup zero r m = out_of_fuel
  try_lookup (suc fuel) r m = elim (get m (key_of r)) [
    | none ↦ done (failed (not_registered (request_name r))) m
    | some cell ↦ downcast_run r (get_or_init (try_lookup fuel) (key_of r) cell m)
  ]

  -- `unwrap_or_else(|e| panic!("{}", e))` of `get` and `get_trait`.
  unfoldable pub unwrap_answer : Run Answer → Run ℕ
  unwrap_answer (done (found v) m) = done v m
  unwrap_answer (done (failed e) m) = panicked m
  unwrap_answer (panicked m) = panicked m
  unwrap_answer deadlocked = deadlocked
  unwrap_answer out_of_fuel = out_of_fuel

  -- Enough for any nesting: each nested factory runs for another cell.
  abbrev pub fuel_for : ℕ
  fuel_for = suc (suc (length c.singletons))

  unfoldable pub try_get : ℕ → String → Run Answer
  try_get t name = try_lookup fuel_for (component t name) c.singletons

  unfoldable pub try_get_trait : ℕ → String → Run Answer
  try_get_trait t name = try_lookup fuel_for (trait_object t name) c.singletons

  unfoldable pub get_component : ℕ → String → Run ℕ
  get_component t name = unwrap_answer (try_get t name)

  unfoldable pub get_trait : ℕ → String → Run ℕ
  get_trait t name = unwrap_answer (try_get_trait t name)

  -- `get_or_init` under `catch_unwind` in `validate`: what goes on with the errors.
  unfoldable pub check_cell :
      TypeId
      → List ContainerError
      → Run AnyValue
      → (List ContainerError → Map Cell → Run (List ContainerError))
      → Run (List ContainerError)
  check_cell id errors (done v m) next = next errors m
  check_cell id errors (panicked m) next = next (errors ++ factory_panic (name_of c id) ∷ []) m
  check_cell id errors deadlocked next = deadlocked
  check_cell id errors out_of_fuel next = out_of_fuel

  -- The loop of `validate` over the types of `singletons`.
  unfoldable pub validate_loop :
      ℕ → List TypeId → List ContainerError → Map Cell → Run (List ContainerError)
  validate_loop fuel [] errors m = done errors m
  validate_loop fuel (id ∷ ids) errors m = elim (get m id) [
    | none ↦ validate_loop fuel ids errors m
    | some (ready v) ↦ validate_loop fuel ids errors m
    | some unset ↦ elim (get c.factories id) [
      | none ↦ validate_loop fuel ids errors m
      | some f ↦
          check_cell id errors (get_or_init (try_lookup fuel) id unset m) (validate_loop fuel ids)
    ]
    | some running ↦ elim (get c.factories id) [
      | none ↦ validate_loop fuel ids errors m
      | some f ↦
          check_cell id errors (get_or_init (try_lookup fuel) id running m) (validate_loop fuel ids)
    ]
  ]

  -- `Ok(())` is the empty list of errors.
  unfoldable pub validate : Run (List ContainerError)
  validate = elim (detect_cycles c) [
    | scanned [] ↦ validate_loop fuel_for (keys c.singletons) [] c.singletons
    | scanned (e ∷ errors) ↦ done (e ∷ errors) c.singletons
    | scan_out_of_fuel ↦ out_of_fuel
    | missing_color ↦ panicked c.singletons
  ]
