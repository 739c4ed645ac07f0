-- ===== src/Di/Container/Resolve/Declared.antt =====
-- Factories that look up declared dependencies only, as the code generated by `#[service]` does.
use mathlib.Core.WellFounded.{Acc}
use modular_rust_platform.Base.{◌≡◌, refl, sym, subst, some, List, Map, get, In}
use modular_rust_platform.Di.Container.{
  TypeId, Container, Answer, Request, Build, instance_of, panic, ask, Cell, deps_of, Factory,
}
use modular_rust_platform.Di.Container.Cycles.Steps.{Child}
use modular_rust_platform.Di.Container.Cycles.Frames.{Buildable}
use modular_rust_platform.Di.Container.Resolve.{
  Run, done, panicked, deadlocked, out_of_fuel, key_of, Lookup, exec, and_then,
}
use modular_rust_platform.Di.Container.Resolve.Cells.{Grows, Grows-refl, Grows-trans, Ends}

-- Each lookup of the body is for one of the listed types, whatever it is answered.
abbrev pub Declares : List TypeId → Build → Type 0
Declares deps (instance_of v) = Unit
Declares deps panic = Unit
Declares deps (ask r next) = In (key_of r) deps × ((a : Answer) → Declares deps (next a))

abbrev pub AllDeclared : Container → Type 0
AllDeclared c =
    (id : TypeId) (f : Factory) → get c.factories id ≡ some f → Declares (deps_of c id) f.build

and_then-Ends :
    {A B : Type 0} (r : Run A) (next : A → Map Cell → Run B) (m : Map Cell)
    → Ends m r
    → ((a : A) (m' : Map Cell) → Grows m m' → Ends m' (next a m'))
    → Ends m (and_then r next)
and_then-Ends (done a m') next m h k = Ends-trans (next a m') m m' h (k a m' h)
  where
    Ends-trans : {B : Type 0} (r : Run B) (m m' : Map Cell) → Grows m m' → Ends m' r → Ends m r
    Ends-trans (done b m'') m m' p q = Grows-trans m m' m'' p q
    Ends-trans (panicked m'') m m' p q = Grows-trans m m' m'' p q
    Ends-trans deadlocked m m' p q = q
    Ends-trans out_of_fuel m m' p q = q
and_then-Ends (panicked m') next m h k = h
and_then-Ends deadlocked next m h k = h
and_then-Ends out_of_fuel next m h k = h

-- A body ends if the lookups that it declares do, under a condition that they keep.
pub exec-Ends :
    (look : Lookup) (deps : List TypeId) (P : Map Cell → Type 0)
    → ((m m' : Map Cell) → P m → Grows m m' → P m')
    → ((r : Request) (m : Map Cell) → In (key_of r) deps → P m → Ends m (look r m))
    → (b : Build) → Declares deps b
    → (m : Map Cell) → P m
    → Ends m (exec look b m)
unfolding exec
exec-Ends look deps P keep answers (instance_of v) d m p = Grows-refl m
exec-Ends look deps P keep answers panic d m p = Grows-refl m
exec-Ends look deps P keep answers (ask r next) (asked, later) m p =
    and_then-Ends (look r m) (λ a. exec look (next a)) m (answers r m asked p)
      (λ a m' g. exec-Ends look deps P keep answers (next a) (later a) m' (keep m m' p g))

-- `k` depends on `j` in any number of steps.
pub data Reaches (c : Container) : TypeId → TypeId → Type 0 where
  here : {k j : TypeId} → k ≡ j → Reaches c k j
  step : {k j : TypeId} (d : TypeId) → Child c k d → Reaches c d j → Reaches c k j

Reaches-snoc : (c : Container) (k j l : TypeId) → Reaches c k j → Child c j l → Reaches c k l
Reaches-snoc c k j l (here e) h = step l (subst (λ x. Child c x l) (sym e) h) (here refl)
Reaches-snoc c k j l (step d first rest) h = step d first (Reaches-snoc c d j l rest h)

-- What can be built does not depend on itself.
pub no_return : (c : Container) (k d : TypeId) → Buildable c k → Child c k d → Reaches c d k → ⊥
no_return c k d (Acc.intro _ below) h (here e) =
    no_return c d k (below d h) (subst (λ x. Child c x k) (sym e) (subst (Child c k) e h))
      (here (sym e))
no_return c k d (Acc.intro _ below) h (step e first rest) =
    no_return c d e (below d h) first (Reaches-snoc c e k d rest h)
