-- ===== src/Di/Container/Cycles/Frames.antt =====
-- What the frames of the search stand for while no error is found: a black type can be built.
use mathlib.Core.WellFounded.{Acc}
use modular_rust_platform.Base.{
  ℕ, ◌+◌, ◌<◌, ◌≡◌, sym, ap, ◌∙◌, subst, ◌≢◌, ◌⊎◌, inl, inr, Option, none, some, List, [], ◌∷◌,
  ◌++◌, Map, insert, get_elem?, arith, Option-cases, ◌==◌, Bool-cases, ==_iff, lt_of_get_elem?,
}
use modular_rust_platform.Di.Container.{TypeId, Container, ContainerError, deps_of}
use modular_rust_platform.Di.Container.Cycles.{
  Color, gray, black, color_of, Search, round, visit, finish,
}
use modular_rust_platform.Di.Container.Cycles.Steps.{
  color_of-insert, Child, Color-cases, round_done, round_next, visit_white, visit_gray, visit_black,
}

-- `dep` is below `node`: `node` depends on it.
abbrev pub DependsOn : Container → TypeId → TypeId → Type 0
DependsOn c dep node = Child c node dep

-- All dependencies of a type, in any number of steps, can be built one after the other.
abbrev pub Buildable : Container → TypeId → Type 0
Buildable c = Acc (DependsOn c)

module _ (c : Container) where
  -- The children below index `i` are black, but for the one that the frame above works on.
  abbrev pub Visited : Map Color → TypeId → ℕ → Option TypeId → Type 0
  Visited colors node i above =
      (j : ℕ) (dep : TypeId)
      → j < i
      → get_elem? (deps_of c node) j ≡ some dep
      → (color_of colors dep ≡ black) ⊎ (above ≡ some dep)

  abbrev pub Frames : Map Color → Option TypeId → List (TypeId × ℕ) → Type 0
  Frames colors above [] = Unit
  Frames colors above ((node, i) ∷ rest) =
      Visited colors node i above × Frames colors (some node) rest

  abbrev pub KeepsBlack : Map Color → Map Color → Type 0
  KeepsBlack colors colors' = (k : TypeId) → color_of colors k ≡ black → color_of colors' k ≡ black

  Frames-mono :
      (colors colors' : Map Color) (above : Option TypeId) (stack : List (TypeId × ℕ))
      → KeepsBlack colors colors'
      → Frames colors above stack
      → Frames colors' above stack
  Frames-mono colors colors' above [] keep h = tt
  Frames-mono colors colors' above ((node, i) ∷ rest) keep (visited, h) = (
    λ j dep lt e. ground (arith, visited j dep lt e, keep dep),
    Frames-mono colors colors' (some node) rest keep h,
  )

  -- The frame above is left, and its type is black now.
  Frames-pop :
      (colors colors' : Map Color) (node : TypeId) (stack : List (TypeId × ℕ))
      → KeepsBlack colors colors'
      → color_of colors' node ≡ black
      → Frames colors (some node) stack
      → Frames colors' none stack
  Frames-pop colors colors' node [] keep now h = tt
  Frames-pop colors colors' node ((m, i) ∷ rest) keep now (visited, h) = (
    λ j dep lt e. ground (arith, visited j dep lt e, keep dep),
    Frames-mono colors colors' (some m) rest keep h,
  )

  pub record Facts (s : Search) : Type 0 where
    pub built : (k : TypeId) → color_of s.colors k ≡ black → Buildable c k
    pub frames : Frames s.colors none s.stack

  -- Coloring `node` adds only `node` to the black types.
  pub insert-built :
      (colors : Map Color) (node k : TypeId) (color : Color)
      → (color ≡ black → Buildable c node)
      → (color_of colors k ≡ black → Buildable c k)
      → color_of (insert node color colors) k ≡ black
      → Buildable c k
  insert-built colors node k color now old b = elim (color_of-insert node color colors k) [
    | inl (same, painted) ↦ subst (Buildable c) same (now (sym painted ∙ b))
    | inr (other, kept) ↦ old (sym kept ∙ b)
  ]

  finish-Facts :
      (s : Search) (node i : ℕ) (rest : List (TypeId × ℕ))
      → s.stack ≡ (node, i) ∷ rest
      → get_elem? (deps_of c node) i ≡ none
      → Facts s
      → Facts (finish c node rest s)
  unfolding finish
  finish-Facts s node i rest e done h =
      let (visited, below) = subst (Frames s.colors none) e h.frames in
      let keep : KeepsBlack s.colors (insert node black s.colors) =
        λ k b. ground (arith, color_of-insert node black s.colors k) in
      let children_black : (dep : TypeId) → DependsOn c dep node → color_of s.colors dep ≡ black =
        λ dep (j, at). ground (arith, visited j dep (lt_of_get_elem? _ i j dep done at) at) in
      record {
        built = λ k b.
            insert-built s.colors node k black
              (λ _. Acc.intro node (λ dep d. h.built dep (children_black dep d))) (h.built k) b;
        frames =
            Frames-pop s.colors _ node rest keep
              (ground (arith, color_of-insert node black s.colors node)) below;
      }

  -- An error is never taken back.
  pub append-ne-nil : (xs : List ContainerError) (x : ContainerError) → xs ++ x ∷ [] ≢ []
  append-ne-nil [] x e = cc
  append-ne-nil (y ∷ xs) x e = cc

  abbrev pub Inv : Search → Type 0
  Inv s = s.errors ≡ [] → Facts s

  Visited-suc :
      (colors : Map Color) (node i dep j d : ℕ)
      → Visited colors node i none
      → get_elem? (deps_of c node) i ≡ some dep
      → j < i + 1
      → get_elem? (deps_of c node) j ≡ some d
      → (color_of colors d ≡ black) ⊎ (dep ≡ d)
  Visited-suc colors node i dep j d visited next lt at = elim (Bool-cases (j == i)) [
    | inl same ↦
        let e : j ≡ i = (==_iff j i).0 same in
        inr (ground (arith, sym next ∙ ap (get_elem? (deps_of c node)) (sym e) ∙ at))
    | inr other ↦ ground (arith, visited j d)
  ]

  next-Facts :
      (s : Search) (node i dep : ℕ) (rest : List (TypeId × ℕ))
      → s.stack ≡ (node, i) ∷ rest
      → get_elem? (deps_of c node) i ≡ some dep
      → Inv s
      → Inv (visit c dep (record s { stack = (node, i + 1) ∷ rest }))
  next-Facts s node i dep rest e next h =
      let s' = record s { stack = (node, i + 1) ∷ rest } in
      elim (Color-cases (color_of s.colors dep)) [
        | inl w ↦ rw (visit_white c s' dep w) λ clean.
            let facts = h clean in
            let (visited, below) = subst (Frames s.colors none) e facts.frames in
            let keep : KeepsBlack s.colors (insert dep gray s.colors) =
              λ k b. ground (arith, color_of-insert dep gray s.colors k) in
            record {
              built = λ k b. insert-built s.colors dep k gray (λ p. cc) (facts.built k) b;
              frames = (
                λ j d lt at. absurd (omega arith),
                (
                  λ j d lt at.
                      ground
                        (arith, Visited-suc s.colors node i dep j d visited next lt at, keep d),
                  Frames-mono s.colors _ (some node) rest keep below,
                ),
              );
            }
        | inr (inl g) ↦ rw (visit_gray c s' dep g) λ clean. absurd (append-ne-nil s.errors _ clean)
        | inr (inr b) ↦ rw (visit_black c s' dep b) λ clean.
            let facts = h clean in
            let (visited, below) = subst (Frames s.colors none) e facts.frames in
            record {
              built = facts.built;
              frames = (
                λ j d lt at. ground (arith, Visited-suc s.colors node i dep j d visited next lt at),
                below,
              );
            }
      ]

  pub round-Inv :
      (s : Search) (node i : ℕ) (rest : List (TypeId × ℕ))
      → s.stack ≡ (node, i) ∷ rest
      → Inv s
      → Inv (round c node i rest s)
  unfolding finish
  round-Inv s node i rest e h = elim (Option-cases (get_elem? (deps_of c node) i)) [
    | inl done ↦
        rw (round_done c s node i rest done) λ clean. finish-Facts s node i rest e done (h clean)
    | inr (dep, next) ↦
        rw (round_next c s node i rest dep next) (next-Facts s node i dep rest e next h)
  ]
