-- ===== src/Di/Container/Resolve/Passes.antt =====
-- What one step of a validation pass does to the cells.
use modular_rust_platform.Base.{
  ℕ, ◌≡◌, refl, sym, subst, ◌≢◌, inl, inr, Option-cases, none, some, List, [], ◌∷◌, ◌++◌, Map, get,
  insert, get-insert, arith, In,
}
use modular_rust_platform.Di.Container.{
  TypeId, Container, ContainerError, AnyValue, Factory, Cell, unset, running, ready, factory_panic,
  name_of,
}
use modular_rust_platform.Di.Container.Resolve.{
  Run, done, panicked, deadlocked, out_of_fuel, settle, get_or_init, try_lookup, validate_loop,
  check_cell, Lookup, exec,
}
use modular_rust_platform.Di.Container.Resolve.Cells.{
  GrowsAt, Grows, Grows-trans, running_before, absent_before, Ends,
}

-- No component is being initialised: so between lookups.
abbrev pub Idle : Map Cell → Type 0
Idle m = (k : TypeId) → get m k ≢ some running

pub Idle-Grows : (m m' : Map Cell) → Idle m → Grows m m' → Idle m'
Idle-Grows m m' h g k e = h k (running_before (get m k) (get m' k) (g k) e)

pub settle-ready :
    (id : TypeId) (f : Factory) (r : Run ℕ) (v : AnyValue) (m' : Map Cell)
    → settle id f r ≡ done v m'
    → get m' id ≡ some (ready v)
unfolding settle
settle-ready id f (done x m) v m' e = ground (arith, get-insert id (ready (f.wrap x)) m id)
settle-ready id f (panicked m) v m' e = cc
settle-ready id f deadlocked v m' e = cc
settle-ready id f out_of_fuel v m' e = cc

-- What `get_or_init` returns is in the cell afterwards.
pub init-ready :
    (c : Container) (look : Lookup) (id : TypeId) (cell : Cell) (m m' : Map Cell) (v : AnyValue)
    → get m id ≡ some cell
    → get_or_init c look id cell m ≡ done v m'
    → get m' id ≡ some (ready v)
unfolding get_or_init
init-ready c look id (ready x) m m' v at e = ground arith
init-ready c look id running m m' v at e = cc
init-ready c look id unset m m' v at e = elim (Option-cases (get c.factories id)) [
  | inl missing ↦ ground arith
  | inr (f, known) ↦
      settle-ready id f (exec look f.build (insert id running m)) v m'
        (rw (known, get_or_init) at e)
]

-- How a pass over some types ends.
pub record Completes (ids : List TypeId) (errors : List ContainerError) (m : Map Cell)
    (res : Run (List ContainerError)) : Type 0 where
  pub errs : List ContainerError
  pub cells : Map Cell
  pub returns : res ≡ done errs cells
  pub grows : Grows m cells
  pub clean : errs ≡ [] → errors ≡ []
  pub all_ready :
      errs ≡ [] → (k : TypeId) → In k ids → (v : AnyValue) × (get cells k ≡ some (ready v))

pub ready_after :
    (k : TypeId) (m m' : Map Cell) (v : AnyValue)
    → Grows m m'
    → get m k ≡ some (ready v)
    → get m' k ≡ some (ready v)
ready_after k m m' v g e = subst (λ o. GrowsAt o (get m' k)) e (g k)

pub append-ne-nil : (xs : List ContainerError) (x : ContainerError) → xs ++ x ∷ [] ≢ []
append-ne-nil [] x e = cc
append-ne-nil (y ∷ xs) x e = cc

module _ (c : Container) where
  -- The rest of a pass, behind the type that was just checked.
  pub check_cell-Completes :
      (id : TypeId) (ids : List TypeId) (errors : List ContainerError) (m : Map Cell)
      (next : List ContainerError → Map Cell → Run (List ContainerError)) (r : Run AnyValue)
      → Ends m r
      → ((v : AnyValue) (m' : Map Cell) → r ≡ done v m' → get m' id ≡ some (ready v))
      → ((errors' : List ContainerError) (m' : Map Cell)
          → Grows m m'
          → Completes ids errors' m' (next errors' m'))
      → Completes (id ∷ ids) errors m (check_cell c id errors r next)
  unfolding check_cell
  check_cell-Completes id ids errors m next (done v m1) g set later =
      let k = later errors m1 g in
      record {
        errs = k.errs;
        cells = k.cells;
        returns = k.returns;
        grows = Grows-trans m m1 k.cells g k.grows;
        clean = k.clean;
        all_ready = λ e j listed. elim listed [
          | inl same ↦ (
            v,
            subst (λ x. get k.cells x ≡ some (ready v)) (sym same)
                (ready_after id m1 k.cells v k.grows (set v m1 refl)),
          )
          | inr more ↦ k.all_ready e j more
        ];
      }
  check_cell-Completes id ids errors m next (panicked m1) g set later =
      let k = later (errors ++ factory_panic (name_of c id) ∷ []) m1 g in
      record {
        errs = k.errs;
        cells = k.cells;
        returns = k.returns;
        grows = Grows-trans m m1 k.cells g k.grows;
        clean = λ e. absurd (append-ne-nil errors _ (k.clean e));
        all_ready = λ e. absurd (append-ne-nil errors _ (k.clean e));
      }
  check_cell-Completes id ids errors m next deadlocked g set later = absurd g
  check_cell-Completes id ids errors m next out_of_fuel g set later = absurd g

  pub loop_ready :
      (fuel : ℕ) (id : TypeId) (ids : List TypeId) (errors : List ContainerError) (m : Map Cell)
      (v : AnyValue)
      → get m id ≡ some (ready v)
      → validate_loop c fuel (id ∷ ids) errors m ≡ validate_loop c fuel ids errors m
  unfolding validate_loop
  loop_ready fuel id ids errors m v e = rw (e, validate_loop)

  pub loop_unset :
      (fuel : ℕ) (id : TypeId) (ids : List TypeId) (errors : List ContainerError) (m : Map Cell)
      (f : Factory)
      → get m id ≡ some unset
      → get c.factories id ≡ some f
      → validate_loop c fuel (id ∷ ids) errors m
        ≡ check_cell c id errors
            (get_or_init c (try_lookup c fuel) id unset m)
            (validate_loop c fuel ids)
  unfolding validate_loop
  loop_unset fuel id ids errors m f e known = rw (e, validate_loop) (rw (known, validate_loop))

  pub present_after : (m m' : Map Cell) (k : TypeId) → Grows m m' → get m k ≢ none → get m' k ≢ none
  present_after m m' k g h e = h (absent_before (get m k) (get m' k) (g k) e)
