-- ===== src/Di/Container/Cycles/Walks.antt =====
-- Walks along the dependency graph, and the cycle that a path and one of its types give.
use modular_rust_platform.Base.{
  ℕ, suc, ◌+◌, ◌≡◌, subst, ◌⊎◌, inl, inr, List, [], ◌∷◌, ◌++◌, map, arith, In, ◌==◌, Bool-cases,
  ==_iff,
}
use modular_rust_platform.Di.Container.{
  TypeId, Container, ContainerError, cyclic_dependency, name_of,
}
use modular_rust_platform.Di.Container.Cycles.{position_from, cycle_ids}
use modular_rust_platform.Di.Container.Cycles.Steps.{Child}

-- A walk along the list, whose last type depends on `target`.
abbrev pub LeadsTo : Container → List TypeId → TypeId → Type 0
LeadsTo c [] target = ⊥
LeadsTo c (x ∷ []) target = Child c x target
LeadsTo c (x ∷ y ∷ l) target = Child c x y × LeadsTo c (y ∷ l) target

abbrev pub IsCycle : Container → List TypeId → Type 0
IsCycle c [] = ⊥
IsCycle c (x ∷ l) = LeadsTo c (x ∷ l) x

-- An error that names the types of a cycle, in order.
abbrev pub IsReport : Container → ContainerError → Type 0
IsReport c e = (ids : List TypeId) × (e ≡ cyclic_dependency (map (name_of c) ids)) × IsCycle c ids

-- The path that the frames of the stack stand for.
abbrev pub path_of : List (TypeId × ℕ) → List TypeId
path_of [] = []
path_of ((node, i) ∷ rest) = path_of rest ++ node ∷ []

pub In-append_cases : (a : ℕ) (xs ys : List ℕ) → In a (xs ++ ys) → In a xs ⊎ In a ys
In-append_cases a [] ys h = inr h
In-append_cases a (x ∷ xs) ys h = ground (arith, In-append_cases a xs ys)

pub position_from-suc :
    (dep : TypeId) (xs : List TypeId) (n : ℕ)
    → In dep xs
    → position_from dep xs (n + 1) ≡ suc (position_from dep xs n)
position_from-suc dep [] n m = absurd m
position_from-suc dep (x ∷ xs) n m = ground (arith, position_from-suc dep xs (n + 1))

module _ (c : Container) where
  pub LeadsTo-append :
      (xs : List TypeId) (x target : TypeId)
      → LeadsTo c xs x
      → Child c x target
      → LeadsTo c (xs ++ x ∷ []) target
  LeadsTo-append [] x target h e = absurd h
  LeadsTo-append (y ∷ []) x target h e = (h, e)
  LeadsTo-append (y ∷ z ∷ xs) x target (h, k) e = (h, LeadsTo-append (z ∷ xs) x target k e)

  -- Each frame was pushed for a child of the frame below it.
  abbrev pub LinkedTo : TypeId → List (TypeId × ℕ) → Type 0
  LinkedTo m [] = Unit
  LinkedTo m ((node, i) ∷ rest) = Child c node m × LinkedTo node rest

  abbrev pub Linked : List (TypeId × ℕ) → Type 0
  Linked [] = Unit
  Linked ((node, i) ∷ rest) = LinkedTo node rest

  pub Linked-tail : (node : TypeId) (rest : List (TypeId × ℕ)) → LinkedTo node rest → Linked rest
  Linked-tail node [] l = tt
  Linked-tail node ((m, j) ∷ rest) (h, l) = l

  pub path_of-LeadsTo :
      (node i : ℕ) (rest : List (TypeId × ℕ)) (target : TypeId)
      → LinkedTo node rest
      → Child c node target
      → LeadsTo c (path_of ((node, i) ∷ rest)) target
  path_of-LeadsTo node i [] target l e = e
  path_of-LeadsTo node i ((m, j) ∷ rest) target (h, l) e =
      LeadsTo-append (path_of ((m, j) ∷ rest)) node target (path_of-LeadsTo m j rest node l h) e

  pub LeadsTo-tail :
      (x : TypeId) (xs : List TypeId) (a target : TypeId)
      → In a xs
      → LeadsTo c (x ∷ xs) target
      → LeadsTo c xs target
  LeadsTo-tail x [] a target m h = absurd m
  LeadsTo-tail x (y ∷ xs) a target m (h, k) = k

  -- From its position on, the path is a cycle through `dep`.
  pub cycle_ids-IsCycle :
      (path : List TypeId) (dep target : TypeId)
      → In dep path
      → LeadsTo c path target
      → (l : List TypeId) × (cycle_ids path dep ≡ dep ∷ l) × LeadsTo c (dep ∷ l) target
  cycle_ids-IsCycle [] dep target m h = absurd m
  cycle_ids-IsCycle (x ∷ xs) dep target m h = elim (Bool-cases (x == dep)) [
    | inl same ↦
        (xs, ground arith, subst (λ y. LeadsTo c (y ∷ xs) target) ((==_iff x dep).0 same) h)
    | inr other ↦
        let inside : In dep xs = ground arith in
        let (l, from, walk) =
          cycle_ids-IsCycle xs dep target inside (LeadsTo-tail x xs dep target inside h) in
        (l, ground (arith, position_from-suc dep xs 0 inside), walk)
  ]
