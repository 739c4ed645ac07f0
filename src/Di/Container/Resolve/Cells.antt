-- ===== src/Di/Container/Resolve/Cells.antt =====
-- How the cells change while components are initialised.
use modular_rust_platform.Base.{
  ℕ, ◌+◌, ◌≤◌, ◌<◌, ◌≡◌, refl, sym, ap, ◌∙◌, subst, ◌≢◌, ◌⊎◌, inl, inr, Bool-cases, Option, none,
  some, List, [], ◌∷◌, Map, get, insert, get-insert, ◌==◌, ==_iff, arith, In, length,
}
use modular_rust_platform.Di.Container.{TypeId, AnyValue, Cell, unset, running, ready}
use modular_rust_platform.Di.Container.Resolve.{Run, done, panicked, deadlocked, out_of_fuel}

-- A cell that is set or busy stays so, and an unset cell may be set.
abbrev pub GrowsAt : Option Cell → Option Cell → Type 0
GrowsAt none after = after ≡ none
GrowsAt (some (ready v)) after = after ≡ some (ready v)
GrowsAt (some running) after = after ≡ some running
GrowsAt (some unset) after = (after ≡ some unset) ⊎ ((v : AnyValue) × (after ≡ some (ready v)))

abbrev pub Grows : Map Cell → Map Cell → Type 0
Grows m m' = (k : TypeId) → GrowsAt (get m k) (get m' k)

GrowsAt-refl : (o : Option Cell) → GrowsAt o o
GrowsAt-refl none = refl
GrowsAt-refl (some (ready v)) = refl
GrowsAt-refl (some running) = refl
GrowsAt-refl (some unset) = inl refl

pub Grows-refl : (m : Map Cell) → Grows m m
Grows-refl m k = GrowsAt-refl (get m k)

GrowsAt-trans : (a b d : Option Cell) → GrowsAt a b → GrowsAt b d → GrowsAt a d
GrowsAt-trans none b d h k = subst (λ o. GrowsAt o d) h k
GrowsAt-trans (some (ready v)) b d h k = subst (λ o. GrowsAt o d) h k
GrowsAt-trans (some running) b d h k = subst (λ o. GrowsAt o d) h k
GrowsAt-trans (some unset) b d (inl h) k = subst (λ o. GrowsAt o d) h k
GrowsAt-trans (some unset) b d (inr (v, h)) k = inr (v, subst (λ o. GrowsAt o d) h k)

pub Grows-trans : (a b d : Map Cell) → Grows a b → Grows b d → Grows a d
Grows-trans a b d p q k = GrowsAt-trans (get a k) (get b k) (get d k) (p k) (q k)

-- A busy cell was busy before.
pub running_before : (a b : Option Cell) → GrowsAt a b → b ≡ some running → a ≡ some running
running_before none b h e = cc
running_before (some (ready v)) b h e = cc
running_before (some running) b h e = refl
running_before (some unset) b (inl h) e = cc
running_before (some unset) b (inr (v, h)) e = cc

pub absent_before : (a b : Option Cell) → GrowsAt a b → b ≡ none → a ≡ none
absent_before none b h e = refl
absent_before (some (ready v)) b h e = cc
absent_before (some running) b h e = cc
absent_before (some unset) b (inl h) e = cc
absent_before (some unset) b (inr (v, h)) e = cc

pub present_before : (a b : Option Cell) → GrowsAt a b → b ≢ none → a ≢ none
present_before none b h e p = e h
present_before (some x) b h e p = cc

-- `cell` is what `settle` leaves behind.
pub Grows-settle :
    (id : TypeId) (cell : Cell) (m m' : Map Cell)
    → get m id ≡ some unset
    → cell ≢ running
    → Grows (insert id running m) m'
    → Grows m (insert id cell m')
Grows-settle id cell m m' e idle h k = elim (Bool-cases (id == k)) [
  | inl same ↦
      rw (get-insert id cell m' k, same)
        (subst (λ o. GrowsAt o (some cell)) (sym (ap (get m) (sym ((==_iff id k).0 same)) ∙ e))
          (settled cell idle))
  | inr other ↦
      let before : get (insert id running m) k ≡ get m k =
        ground (arith, get-insert id running m k) in
      let after : get (insert id cell m') k ≡ get m' k = ground (arith, get-insert id cell m' k) in
      subst (λ o. GrowsAt (get m k) o) (sym after) (subst (λ o. GrowsAt o (get m' k)) before (h k))
]
  where
    settled : (cell : Cell) → cell ≢ running → GrowsAt (some unset) (some cell)
    settled unset idle = inl refl
    settled running idle = absurd (idle refl)
    settled (ready v) idle = inr (v, refl)

abbrev pub unset_weight : Option Cell → ℕ
unset_weight (some unset) = 1
unset_weight (some running) = 0
unset_weight (some (ready v)) = 0
unset_weight none = 0

-- The number of unset cells among the given types.
abbrev pub count : List TypeId → Map Cell → ℕ
count [] m = 0
count (k ∷ ks) m = unset_weight (get m k) + count ks m

weight-le : (a b : Option Cell) → GrowsAt a b → unset_weight b ≤ unset_weight a
weight-le none b h = rw h (omega arith)
weight-le (some (ready v)) b h = rw h (omega arith)
weight-le (some running) b h = rw h (omega arith)
weight-le (some unset) b (inl h) = rw h (omega arith)
weight-le (some unset) b (inr (v, h)) = rw h (omega arith)

pub count-Grows : (ks : List TypeId) (m m' : Map Cell) → Grows m m' → count ks m' ≤ count ks m
count-Grows [] m m' h = omega arith
count-Grows (k ∷ ks) m m' h =
    omega (arith, weight-le (get m k) (get m' k) (h k), count-Grows ks m m' h)

pub count-le-length : (ks : List TypeId) (m : Map Cell) → count ks m ≤ length ks
count-le-length [] m = omega arith
count-le-length (k ∷ ks) m = ground (arith, count-le-length ks m)

count-insert-le :
    (ks : List TypeId) (id : TypeId) (m : Map Cell) → count ks (insert id running m) ≤ count ks m
count-insert-le [] id m = omega arith
count-insert-le (k ∷ ks) id m = ground (arith, get-insert id running m k, count-insert-le ks id m)

-- A cell that starts to run is no longer unset.
pub count-insert :
    (ks : List TypeId) (id : TypeId) (m : Map Cell)
    → get m id ≡ some unset
    → In id ks
    → count ks (insert id running m) < count ks m
count-insert [] id m e h = absurd h
count-insert (k ∷ ks) id m e (inl same) =
    ground (arith, get-insert id running m k, count-insert-le ks id m)
count-insert (k ∷ ks) id m e (inr h) =
    ground (arith, get-insert id running m k, count-insert ks id m e h)

-- The code came to an end, and changed the cells in no other way.
abbrev pub Ends : {A : Type 0} → Map Cell → Run A → Type 0
Ends m (done a m') = Grows m m'
Ends m (panicked m') = Grows m m'
Ends m deadlocked = ⊥
Ends m out_of_fuel = ⊥
