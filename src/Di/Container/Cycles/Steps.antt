-- ===== src/Di/Container/Cycles/Steps.antt =====
-- One round of the search, and the rule by which an invariant of the rounds holds at the end.
use modular_rust_platform.Base.{
  ℕ, zero, suc, ◌+◌, ◌≡◌, refl, ◌≢◌, ◌⊎◌, inl, inr, none, some, List, [], ◌∷◌, ◌++◌, map, Map, get,
  insert, get_elem?, arith, List-cases, Option-cases, In, In-append, In-of_get_elem?, get-insert,
}
use modular_rust_platform.Di.Container.{
  TypeId, Container, ContainerError, cyclic_dependency, name_of, deps_of,
}
use modular_rust_platform.Di.Container.Cycles.{
  Color, white, gray, black, color_of, cycle_ids, Search, round, visit, finish, search_loop, start,
  roots_loop, scanned, universe,
}

pub color_of-insert :
    (id : TypeId) (color : Color) (colors : Map Color) (j : TypeId)
    → ((id ≡ j) × (color_of (insert id color colors) j ≡ color))
      ⊎ ((id ≢ j) × (color_of (insert id color colors) j ≡ color_of colors j))
color_of-insert id color colors j = ground (arith, get-insert id color colors j)

-- An edge of the graph: the child at some index of `node`.
abbrev pub Child : Container → TypeId → TypeId → Type 0
Child c node dep = (i : ℕ) × (get_elem? (deps_of c node) i ≡ some dep)

pub Color-cases : (k : Color) → (k ≡ white) ⊎ (k ≡ gray) ⊎ (k ≡ black)
Color-cases white = inl refl
Color-cases gray = inr (inl refl)
Color-cases black = inr (inr refl)

module _ (c : Container) (s : Search) (node i : ℕ) (rest : List (TypeId × ℕ)) where
  pub round_done :
      get_elem? (deps_of c node) i ≡ none → round c node i rest s ≡ finish c node rest s
  unfolding round
  round_done e = rw (e, round)

  pub round_next :
      (dep : TypeId)
      → get_elem? (deps_of c node) i ≡ some dep
      → round c node i rest s ≡ visit c dep (record s { stack = (node, i + 1) ∷ rest })
  unfolding round
  round_next dep e = rw (e, round)

module _ (c : Container) where
  -- An invariant that one round keeps holds when the loop returns, with an empty stack.
  pub loop_rule {ℓ} :
      (P : Search → Type ℓ)
      → ((s : Search) (node i : ℕ) (rest : List (TypeId × ℕ))
          → s.stack ≡ (node, i) ∷ rest
          → P s
          → P (round c node i rest s))
      → (fuel : ℕ) (s t : Search) → P s
      → search_loop c fuel s ≡ some t
      → P t × (t.stack ≡ [])
  unfolding search_loop
  loop_rule P keep zero s t p h = elim (List-cases s.stack) [
    | inl empty ↦ ground arith
    | inr (frame, rest, e) ↦ ground arith
  ]
  loop_rule P keep (suc fuel) s t p h = elim (List-cases s.stack) [
    | inl empty ↦ ground arith
    | inr ((node, i), rest, e) ↦
        loop_rule P keep fuel (round c node i rest s) t (keep s node i rest e p)
          (rw (e, search_loop) at h)
  ]

module _ (c : Container) (s : Search) (dep : TypeId) where
  pub visit_white :
      color_of s.colors dep ≡ white
      → visit c dep s ≡ record s {
        colors = insert dep gray s.colors;
        path = s.path ++ dep ∷ [];
        stack = (dep, 0) ∷ s.stack;
      }
  unfolding visit
  visit_white e = rw (e, visit)

  pub visit_gray :
      color_of s.colors dep ≡ gray
      → visit c dep s ≡ record s {
        errors = s.errors ++ cyclic_dependency (map (name_of c) (cycle_ids s.path dep)) ∷ [];
      }
  unfolding visit
  visit_gray e = rw (e, visit)

  pub visit_black : color_of s.colors dep ≡ black → visit c dep s ≡ s
  unfolding visit
  visit_black e = rw (e, visit)

module _ (c : Container) (fuel : ℕ) (root : TypeId) (roots : List TypeId) (colors : Map Color)
    (errors : List ContainerError) where
  pub roots_white :
      (t : Search)
      → get colors root ≡ some white
      → search_loop c fuel (start c root colors errors) ≡ some t
      → roots_loop c fuel (root ∷ roots) colors errors ≡ roots_loop c fuel roots t.colors t.errors
  unfolding roots_loop
  roots_white t e ends = ground arith

  pub roots_skip :
      (color : Color)
      → get colors root ≡ some color
      → color ≢ white
      → roots_loop c fuel (root ∷ roots) colors errors ≡ roots_loop c fuel roots colors errors
  unfolding roots_loop
  roots_skip color e h = ground arith

  -- How a pass over the roots that returns goes on behind its first root.
  pub roots_loop-cases :
      (found : List ContainerError)
      → roots_loop c fuel (root ∷ roots) colors errors ≡ scanned found
      → (color_of colors root ≢ white) × (roots_loop c fuel roots colors errors ≡ scanned found)
        ⊎ ((t : Search) × (color_of colors root ≡ white)
            × (search_loop c fuel (start c root colors errors) ≡ some t)
            × (roots_loop c fuel roots t.colors t.errors ≡ scanned found))
  unfolding roots_loop
  roots_loop-cases found e = elim (Option-cases (get colors root)) [
    | inl missing ↦ ground arith
    | inr (white, k) ↦ elim (Option-cases (search_loop c fuel (start c root colors errors))) [
      | inl out ↦ ground arith
      | inr (t, ends) ↦ inr (t, ground arith, ends, ground arith)
    ]
    | inr (gray, k) ↦ inl (ground arith, ground arith)
    | inr (black, k) ↦ inl (ground arith, ground arith)
  ]

-- Whatever a type declares as a child lies in the universe.
In-universe :
    (m : Map (List TypeId)) (node : TypeId) (deps : List TypeId) (dep : TypeId) (i : ℕ)
    → get m node ≡ some deps
    → get_elem? deps i ≡ some dep
    → In dep (universe m)
In-universe [] node deps dep i h e = cc
In-universe ((id, ds) ∷ m) node deps dep i h e = ground (
  arith,
  In-of_get_elem? deps i dep e,
  In-append dep ds (universe m),
  In-universe m node deps dep i,
)

pub In-universe_of_Child :
    (c : Container) (node dep : TypeId) → Child c node dep → In dep (universe c.dependencies)
In-universe_of_Child c node dep (i, e) = elim (Option-cases (get c.dependencies node)) [
  | inl missing ↦ ground arith
  | inr (deps, known) ↦ In-universe c.dependencies node deps dep i known (ground arith)
]
