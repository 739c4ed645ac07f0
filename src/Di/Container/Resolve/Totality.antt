-- ===== src/Di/Container/Resolve/Totality.antt =====
-- Lookups end: no deadlock, and no nesting beyond the number of cells.
use mathlib.Core.WellFounded.{Acc}
use modular_rust_platform.Base.{
  ℕ, zero, suc, ◌<◌, ◌≡◌, refl, sym, subst, ◌≢◌, inl, inr, Bool-cases, Option-cases, none, some,
  List, Map, get, insert, get-insert, ◌==◌, ==_iff, arith, In, get_elem?_of_In,
}
use modular_rust_platform.Di.Container.{
  TypeId, Container, AnyValue, Request, Factory, Cell, unset, running, ready, deps_of,
}
use modular_rust_platform.Di.Container.Cycles.Steps.{Child}
use modular_rust_platform.Di.Container.Cycles.Frames.{Buildable}
use modular_rust_platform.Di.Container.Resolve.{
  Run, done, panicked, deadlocked, out_of_fuel, key_of, settle, get_or_init, downcast_run,
  try_lookup,
}
use modular_rust_platform.Di.Container.Resolve.Cells.{
  Grows, Grows-refl, Grows-settle, running_before, present_before, count, count-Grows, count-insert,
  Ends,
}
use modular_rust_platform.Di.Container.Resolve.Declared.{
  AllDeclared, exec-Ends, Reaches, here, step, no_return,
}

settle-Ends :
    (id : TypeId) (f : Factory) (r : Run ℕ) (m : Map Cell)
    → get m id ≡ some unset
    → Ends (insert id running m) r
    → Ends m (settle id f r)
unfolding settle
settle-Ends id f (done v m') m e h = Grows-settle id (ready (f.wrap v)) m m' e (λ p. cc) h
settle-Ends id f (panicked m') m e h = Grows-settle id unset m m' e (λ p. cc) h
settle-Ends id f deadlocked m e h = h
settle-Ends id f out_of_fuel m e h = h

downcast_run-Ends :
    (c : Container) (r : Request) (a : Run AnyValue) (m : Map Cell)
    → Ends m a
    → Ends m (downcast_run c r a)
unfolding downcast_run
downcast_run-Ends c r (done v m') m h = h
downcast_run-Ends c r (panicked m') m h = h
downcast_run-Ends c r deadlocked m h = h
downcast_run-Ends c r out_of_fuel m h = h

-- A lookup ends if `get_or_init` does, with the fuel that is left.
lookup-Ends :
    (c : Container) (fuel : ℕ) (r : Request) (m : Map Cell)
    → ((f : ℕ) (cell : Cell)
        → fuel ≡ suc f
        → get m (key_of r) ≡ some cell
        → Ends m (get_or_init c (try_lookup c f) (key_of r) cell m))
    → 0 < fuel
    → Ends m (try_lookup c fuel r m)
unfolding try_lookup
lookup-Ends c zero r m h pos = elim pos [ ]
lookup-Ends c (suc f) r m h pos = elim (Option-cases (get m (key_of r))) [
  | inl missing ↦ rw (missing, try_lookup) (Grows-refl m)
  | inr (cell, known) ↦ rw (known, try_lookup) (downcast_run-Ends c r _ m (h f cell refl known))
]

-- No type that `k` depends on, itself included, is being initialised.
abbrev pub Clear : Container → TypeId → Map Cell → Type 0
Clear c k m = (j : TypeId) → Reaches c k j → get m j ≢ some running

Clear-Grows :
    (c : Container) (k : TypeId) (m m' : Map Cell) → Clear c k m → Grows m m' → Clear c k m'
Clear-Grows c k m m' h g j r e = h j r (running_before (get m j) (get m' j) (g j) e)

-- While `k` is initialised, its dependencies are clear.
Clear-Child :
    (c : Container) (k d : TypeId) (m : Map Cell)
    → Buildable c k
    → Child c k d
    → Clear c k m
    → Clear c d (insert k running m)
Clear-Child c k d m acc h clear j r e = elim (Bool-cases (k == j)) [
  | inl same ↦ no_return c k d acc h (subst (Reaches c d) (sym ((==_iff k j).0 same)) r)
  | inr other ↦ clear j (step d h r) (ground (arith, get-insert k running m j))
]

module _ (c : Container) (declared : AllDeclared c) (ks : List TypeId) where
  -- The listed types have all the cells.
  abbrev pub Covers : Map Cell → Type 0
  Covers m = (k : TypeId) → get m k ≢ none → In k ks

  pub Covers-Grows : (m m' : Map Cell) → Covers m → Grows m m' → Covers m'
  Covers-Grows m m' h g k p = h k (present_before (get m k) (get m' k) (g k) p)

  Covers-insert :
      (m : Map Cell) (id : TypeId) (cell : Cell) → In id ks → Covers m → Covers (insert id cell m)
  Covers-insert m id cell listed h k p = elim (Bool-cases (id == k)) [
    | inl same ↦ subst (λ x. In x ks) ((==_iff id k).0 same) listed
    | inr other ↦ h k (ground (arith, get-insert id cell m k))
  ]

  -- What holds before each lookup of the factory of `k`.
  abbrev Before : TypeId → ℕ → Map Cell → Type 0
  Before k fuel m = Covers m × (count ks m < fuel) × ((d : TypeId) → Child c k d → Clear c d m)

  Before-Grows :
      (k : TypeId) (fuel : ℕ) (m m' : Map Cell) → Before k fuel m → Grows m m' → Before k fuel m'
  Before-Grows k fuel m m' (covers, room, clear) g = (
    Covers-Grows m m' covers g,
    omega (arith, count-Grows ks m m' g),
    λ d h. Clear-Grows c d m m' (clear d h) g,
  )

  pub init-Ends :
      (k : TypeId)
      → Buildable c k
      → (fuel : ℕ) (cell : Cell) (m : Map Cell) → get m k ≡ some cell
      → Covers m
      → count ks m < suc fuel
      → Clear c k m
      → Ends m (get_or_init c (try_lookup c fuel) k cell m)
  unfolding get_or_init
  init-Ends k acc fuel (ready v) m e covers room clear = Grows-refl m
  init-Ends k acc fuel running m e covers room clear = absurd (clear k (here refl) e)
  init-Ends k (Acc.intro _ below) fuel unset m e covers room clear =
      elim (Option-cases (get c.factories k)) [
        | inl missing ↦ rw (missing, get_or_init) (Grows-refl m)
        | inr (f, known) ↦
            let listed = covers k (λ p. cc) in
            rw (known, get_or_init)
              (settle-Ends k f _ m e (
                exec-Ends (try_lookup c fuel) (deps_of c k) (Before k fuel) (Before-Grows k fuel)
                  (λ r m' asked before.
                    let child = get_elem?_of_In (deps_of c k) (key_of r) asked in
                    let (covers', room', clear') = before in
                    lookup-Ends c fuel r m'
                      (λ left cell' same known'.
                        init-Ends (key_of r) (below (key_of r) child) left cell' m' known' covers'
                          (omega arith) (clear' (key_of r) child))
                      (omega arith))
                  f.build (declared k f known) (insert k running m)
                  (
                    Covers-insert m k running listed covers,
                    omega (arith, count-insert ks k m e listed),
                    λ d h. Clear-Child c k d m (Acc.intro k below) h clear,
                  )))
      ]
