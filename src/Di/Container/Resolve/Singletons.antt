-- ===== src/Di/Container/Resolve/Singletons.antt =====
-- A component is built once: what a lookup returned is returned again, and after `validate` every
-- lookup of a registered component succeeds.
use modular_rust_platform.Base.{
  ℕ, zero, suc, ◌≡◌, refl, ap, ◌∙◌, subst, ◌≢◌, inl, inr, Option-cases, none, some, List, [], ◌∷◌,
  Map, get, keys, In,
}
use modular_rust_platform.Di.Container.{
  TypeId, Container, ContainerError, AnyValue, found, failed, Request, Cell, unset, running, ready,
  IsWellFormed,
}
use modular_rust_platform.Di.Container.Resolve.{
  Run, done, panicked, deadlocked, out_of_fuel, get_or_init, try_lookup, validate, downcast,
  downcast_run, key_of,
}
use modular_rust_platform.Di.Container.Resolve.Cells.{GrowsAt, Grows}
use modular_rust_platform.Di.Container.Resolve.Declared.{AllDeclared}
use modular_rust_platform.Di.Container.Resolve.Validation.{validate_ready}
use modular_rust_platform.Di.Container.Resolve.Passes.{Idle, init-ready}
use modular_rust_platform.Di.Container.Resolve.Typed.{
  TypedCells, TypedFactories, Sound, init-Sound, lookup-Sound, downcast_lem,
}
use modular_rust_platform.Di.Container.Resolve.{request_name, validate_loop, check_cell}
use modular_rust_platform.Di.Container.{not_registered}
use modular_rust_platform.Di.Container.Cycles.{
  detect_cycles, Scan, scanned, out_of_fuel as scan_out_of_fuel, missing_color,
}

downcast_run-found :
    (c : Container) (r : Request) (res : Run AnyValue) (e : ContainerError) (m : Map Cell)
    → Sound res
    → ((v : AnyValue) (m1 : Map Cell) → res ≡ done v m1 → get m1 (key_of r) ≡ some (ready v))
    → downcast_run c r res ≢ done (failed e) m
unfolding downcast_run
downcast_run-found c r (done v m1) e m typed set p =
    let (u, fine) = downcast_lem r v (typed (key_of r) v (set v m1 refl)) in cc
downcast_run-found c r (panicked m1) e m typed set p = cc
downcast_run-found c r deadlocked e m typed set p = cc
downcast_run-found c r out_of_fuel e m typed set p = cc

-- The only failure of a lookup is that the type is not registered, and then it changes nothing;
-- so for factories that store what they build under its own type.
pub lookup-failed :
    (c : Container) (fuel : ℕ) (r : Request) (m m' : Map Cell) (e : ContainerError)
    → TypedFactories c
    → TypedCells m
    → try_lookup c fuel r m ≡ done (failed e) m'
    → (e ≡ not_registered (request_name r)) × (get m (key_of r) ≡ none) × (m' ≡ m)
unfolding try_lookup
lookup-failed c zero r m m' e tf tc p = cc
lookup-failed c (suc fuel) r m m' e tf tc p = elim (Option-cases (get m (key_of r))) [
  | inl missing ↦ let q = rw (missing, try_lookup) at p in (cc, missing, cc)
  | inr (cell, known) ↦ absurd (
      downcast_run-found c r (get_or_init c (try_lookup c fuel) (key_of r) cell m) e m'
        (init-Sound c tf (try_lookup c fuel) (lookup-Sound c tf fuel) (key_of r) cell m tc)
        (λ v m1 q. init-ready c (try_lookup c fuel) (key_of r) cell m m1 v known q)
        (rw (known, try_lookup) at p))
]

-- How a lookup that returns got its answer: it is in the cell.
returned_from :
    (c : Container) (r : Request) (res : Run AnyValue) (v : ℕ) (m : Map Cell)
    → downcast_run c r res ≡ done (found v) m
    → (x : AnyValue) × (res ≡ done x m) × (downcast r x ≡ found v)
unfolding downcast_run
returned_from c r (done x m1) v m p = let same : m1 ≡ m = cc in (x, ap (done x) same, cc)
returned_from c r (panicked m1) v m p = cc
returned_from c r deadlocked v m p = cc
returned_from c r out_of_fuel v m p = cc

lookup_of_ready :
    (c : Container) (fuel : ℕ) (r : Request) (m : Map Cell) (x : AnyValue)
    → get m (key_of r) ≡ some (ready x)
    → try_lookup c (suc fuel) r m ≡ done (downcast r x) m
unfolding try_lookup get_or_init downcast_run
lookup_of_ready c fuel r m x e = rw (e, try_lookup)

-- A component that a lookup returned is a singleton: whatever is initialised afterwards, every later
-- lookup returns the same instance and changes nothing.
pub lookup_again :
    (c : Container) (fuel : ℕ) (r : Request) (m m1 m2 : Map Cell) (v : ℕ)
    → try_lookup c fuel r m ≡ done (found v) m1
    → Grows m1 m2
    → (later : ℕ) → try_lookup c (suc later) r m2 ≡ done (found v) m2
unfolding try_lookup
lookup_again c zero r m m1 m2 v p g later = cc
lookup_again c (suc fuel) r m m1 m2 v p g later = elim (Option-cases (get m (key_of r))) [
  | inl missing ↦ let q = rw (missing, try_lookup) at p in cc
  | inr (cell, known) ↦
      let (x, from, fits) =
        returned_from c r (get_or_init c (try_lookup c fuel) (key_of r) cell m) v m1
          (rw (known, try_lookup) at p) in
      let set = init-ready c (try_lookup c fuel) (key_of r) cell m m1 x known from in
      let kept : get m2 (key_of r) ≡ some (ready x) =
        subst (λ o. GrowsAt o (get m2 (key_of r))) set (g (key_of r)) in
      lookup_of_ready c later r m2 x kept ∙ ap (λ a. done a m2) fits
]

check_cell-Sound :
    (c : Container) (id : TypeId) (errors : List ContainerError) (res : Run AnyValue)
    (next : List ContainerError → Map Cell → Run (List ContainerError))
    → Sound res
    → ((errs : List ContainerError) (m : Map Cell) → TypedCells m → Sound (next errs m))
    → Sound (check_cell c id errors res next)
unfolding check_cell
check_cell-Sound c id errors (done v m) next h k = k errors m h
check_cell-Sound c id errors (panicked m) next h k = k _ m h
check_cell-Sound c id errors deadlocked next h k = tt
check_cell-Sound c id errors out_of_fuel next h k = tt

validate_loop-Sound :
    (c : Container)
    → TypedFactories c
    → (fuel : ℕ) (ids : List TypeId) (errors : List ContainerError) (m : Map Cell) → TypedCells m
    → Sound (validate_loop c fuel ids errors m)
unfolding validate_loop
validate_loop-Sound c tf fuel [] errors m h = h
validate_loop-Sound c tf fuel (id ∷ ids) errors m h =
    let skip = validate_loop-Sound c tf fuel ids errors m h in
    let init = λ (cell : Cell).
      check_cell-Sound c id errors (get_or_init c (try_lookup c fuel) id cell m)
        (validate_loop c fuel ids)
        (init-Sound c tf (try_lookup c fuel) (lookup-Sound c tf fuel) id cell m h)
        (λ errs m' h'. validate_loop-Sound c tf fuel ids errs m' h') in
    elim (Option-cases (get m id)) [
      | inl absent ↦ rw (absent, validate_loop) skip
      | inr (ready v, e) ↦ rw (e, validate_loop) skip
      | inr (unset, e) ↦ elim (Option-cases (get c.factories id)) [
        | inl missing ↦ rw (e, validate_loop) (rw (missing, validate_loop) skip)
        | inr (f, known) ↦ rw (e, validate_loop) (rw (known, validate_loop) (init unset))
      ]
      | inr (running, e) ↦ elim (Option-cases (get c.factories id)) [
        | inl missing ↦ rw (e, validate_loop) (rw (missing, validate_loop) skip)
        | inr (f, known) ↦ rw (e, validate_loop) (rw (known, validate_loop) (init running))
      ]
    ]

validate-Sound : (c : Container) → TypedFactories c → TypedCells c.singletons → Sound (validate c)
unfolding validate
validate-Sound c tf tc = by_scan (detect_cycles c) refl
  where
    by_scan : (s : Scan) → detect_cycles c ≡ s → Sound (validate c)
    by_scan (scanned []) e = rw (e, validate) (validate_loop-Sound c tf _ _ [] c.singletons tc)
    by_scan (scanned (x ∷ errors)) e = rw (e, validate) tc
    by_scan scan_out_of_fuel e = rw (e, validate) tt
    by_scan missing_color e = rw (e, validate) tc

TypedCells-of_Sound :
    {A : Type 0} (res : Run A) (a : A) (m : Map Cell) → res ≡ done a m → Sound res → TypedCells m
TypedCells-of_Sound res a m e h = subst Sound e h

-- After a `validate` without errors each lookup of a registered type returns an instance at once and
-- changes nothing.
pub lookup_validated :
    (c : Container)
    → IsWellFormed c
    → AllDeclared c
    → Idle c.singletons
    → TypedFactories c
    → TypedCells c.singletons
    → (m : Map Cell) → validate c ≡ done [] m
    → (r : Request) → In (key_of r) (keys c.factories)
    → (fuel : ℕ) → (v : ℕ) × (try_lookup c (suc fuel) r m ≡ done (found v) m)
lookup_validated c w declared idle tf tc m e r listed fuel =
    let (x, set) = validate_ready c w declared idle m e (key_of r) listed in
    let cells = TypedCells-of_Sound (validate c) [] m e (validate-Sound c tf tc) in
    let (v, fits) = downcast_lem r x (cells (key_of r) x set) in
    (v, lookup_of_ready c fuel r m x set ∙ ap (λ a. done a m) fits)
