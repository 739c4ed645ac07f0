-- ===== src/Di/Container/Resolve/Validation.antt =====
-- `Container::validate` returns, and what it accepts is ready to be used.
use mathlib.Core.WellFounded.{WellFounded}
use modular_rust_platform.Base.{
  ℕ, suc, ◌<◌, ◌≡◌, refl, sym, ap, ◌∙◌, subst, ◌≢◌, inl, inr, Option-cases, none, some, List, [],
  ◌∷◌, Map, get, keys, arith, In, length-keys, In-keys_of_get, get_of_In-keys, List-cases,
}
use modular_rust_platform.Di.Container.{
  TypeId, Container, ContainerError, AnyValue, Cell, unset, running, ready, IsWellFormed,
}
use modular_rust_platform.Di.Container.Cycles.{detect_cycles, scanned}
use modular_rust_platform.Di.Container.Cycles.Frames.{DependsOn}
use modular_rust_platform.Di.Container.Cycles.Termination.{detect_cycles_total}
use modular_rust_platform.Di.Container.Cycles.Acceptance.{detect_cycles_iff}
use modular_rust_platform.Di.Container.Resolve.{
  Run, done, try_lookup, validate_loop, validate, fuel_for,
}
use modular_rust_platform.Di.Container.Resolve.Cells.{
  Grows, Grows-refl, count, count-Grows, count-le-length,
}
use modular_rust_platform.Di.Container.Resolve.Declared.{AllDeclared}
use modular_rust_platform.Di.Container.Resolve.Totality.{Covers, init-Ends, Covers-Grows}
use modular_rust_platform.Di.Container.Resolve.Passes.{
  Idle, Idle-Grows, init-ready, Completes, ready_after, check_cell-Completes, loop_ready,
  loop_unset, present_after,
}

module _ (c : Container) (declared : AllDeclared c) (wf : WellFounded (DependsOn c)) where
  validate_loop-Completes :
      (ks : List TypeId) (fuel : ℕ) (ids : List TypeId) (errors : List ContainerError)
      (m : Map Cell)
      → ((k : TypeId) → In k ids → get c.factories k ≢ none)
      → ((k : TypeId) → In k ids → get m k ≢ none)
      → Covers c declared ks m
      → Idle m
      → count ks m < suc fuel
      → Completes ids errors m (validate_loop c fuel ids errors m)
  unfolding validate_loop
  validate_loop-Completes ks fuel [] errors m reg here covers idle room = record {
    errs = errors;
    cells = m;
    returns = refl;
    grows = Grows-refl m;
    clean = λ e. e;
    all_ready = λ e k listed. absurd listed;
  }
  validate_loop-Completes ks fuel (id ∷ ids) errors m reg here covers idle room =
      let later = λ (errors' : List ContainerError) (m' : Map Cell) (g : Grows m m').
        validate_loop-Completes ks fuel ids errors' m' (λ k l. reg k (inr l))
          (λ k l. present_after c m m' k g (here k (inr l)))
          (Covers-Grows c declared ks m m' covers g) (Idle-Grows m m' idle g)
          (omega (arith, count-Grows ks m m' g)) in
      elim (Option-cases (get c.factories id)) [
        | inl missing ↦ absurd (reg id (inl refl) missing)
        | inr (f, known) ↦ elim (Option-cases (get m id)) [
          | inl absent ↦ absurd (here id (inl refl) absent)
          | inr (running, e) ↦ absurd (idle id e)
          | inr (ready v, e) ↦
              let k = later errors m (Grows-refl m) in
              rw (loop_ready c fuel id ids errors m v e) record {
                errs = k.errs;
                cells = k.cells;
                returns = k.returns;
                grows = k.grows;
                clean = k.clean;
                all_ready = λ q j listed. elim listed [
                  | inl same ↦ (
                    v,
                    subst (λ x. get k.cells x ≡ some (ready v)) (sym same)
                        (ready_after id m k.cells v k.grows e),
                  )
                  | inr more ↦ k.all_ready q j more
                ];
              }
          | inr (unset, e) ↦ rw (loop_unset c fuel id ids errors m f e known) (
              check_cell-Completes c id ids errors m (validate_loop c fuel ids) _
                (init-Ends c declared ks id (wf.apply id) fuel unset m e covers room
                  (λ j _. idle j))
                (λ v m' r. init-ready c (try_lookup c fuel) id unset m m' v e r) later)
        ]
      ]

done-injective :
    {a b : List ContainerError} {m n : Map Cell}
    → ◌≡◌ {A = Run (List ContainerError)} (done a m) (done b n)
    → (a ≡ b) × (m ≡ n)
done-injective e = (cc, cc)

-- A cycle is reported before any factory runs.
validate_cyclic :
    (c : Container) (first : ContainerError) (rest : List ContainerError)
    → detect_cycles c ≡ scanned (first ∷ rest)
    → validate c ≡ done (first ∷ rest) c.singletons
unfolding validate
validate_cyclic c first rest e = rw (e, validate)

module _ (c : Container) (w : IsWellFormed c) (declared : AllDeclared c)
    (idle : Idle c.singletons) where
  registered : (k : TypeId) → In k (keys c.singletons) → get c.factories k ≢ none
  registered k l = get_of_In-keys c.factories k (subst (In k) w.singleton_keys l)

  Covers-all : Covers c declared (keys c.singletons) c.singletons
  Covers-all k present = elim (Option-cases (get c.singletons k)) [
    | inl absent ↦ absurd (present absent)
    | inr (cell, e) ↦ In-keys_of_get c.singletons k cell e
  ]

  validate-Completes :
      detect_cycles c ≡ scanned [] → Completes (keys c.singletons) [] c.singletons (validate c)
  unfolding validate
  validate-Completes e =
      rw (e, validate)
        (validate_loop-Completes c declared ((detect_cycles_iff c w).0 e) (keys c.singletons)
          (fuel_for c) (keys c.singletons) [] c.singletons registered
          (λ k l. get_of_In-keys c.singletons k l) Covers-all idle
          (omega
            (arith, count-le-length (keys c.singletons) c.singletons, length-keys c.singletons)))

  -- `validate` returns its errors, whatever the factories do: it does not panic, deadlock or
  -- recurse for ever, for a container built by registrations, whose factories look up what they
  -- declare, and in which no component is being initialised. Cells that are set stay as they are.
  pub validate_total :
      (errors : List ContainerError) × (m : Map Cell) × (validate c ≡ done errors m)
      × Grows c.singletons m
  validate_total =
      let (found, e) = detect_cycles_total c in
      elim (List-cases found) [
        | inl clean ↦
            let k = validate-Completes (e ∙ ap scanned clean) in
            (k.errs, k.cells, k.returns, k.grows)
        | inr (first, rest, more) ↦ (
          first ∷ rest,
          c.singletons,
          validate_cyclic c first rest (e ∙ ap scanned more),
          Grows-refl c.singletons,
        )
      ]

  -- If `validate` returns without an error, under the same conditions, then every registered
  -- component is initialised: its cell is set.
  pub validate_ready :
      (m : Map Cell)
      → validate c ≡ done [] m
      → (k : TypeId) → In k (keys c.factories)
      → (v : AnyValue) × (get m k ≡ some (ready v))
  validate_ready m returned k listed =
      let (found, e) = detect_cycles_total c in
      elim (List-cases found) [
        | inl clean ↦
            let r = validate-Completes (e ∙ ap scanned clean) in
            let same = sym r.returns ∙ returned in
            let no_errs : r.errs ≡ [] = (done-injective same).0 in
            let same_cells : r.cells ≡ m = (done-injective same).1 in
            subst (λ n. (v : AnyValue) × (get n k ≡ some (ready v))) same_cells
              (r.all_ready no_errs k (subst (In k) (sym w.singleton_keys) listed))
        | inr (first, rest, more) ↦ absurd (
            cc (
              (done-injective
                (sym (validate_cyclic c first rest (e ∙ ap scanned more)) ∙ returned)).0))
      ]
