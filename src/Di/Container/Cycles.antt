-- ===== src/Di/Container/Cycles.antt =====
-- `Container::detect_cycles` of crates/stano-di/src/container.rs: a depth-first search with three
-- colors. The vector `stack` has its top at the head; `path` is in the order of the source. The
-- `while let` loop takes fuel: `budget` rounds for each root, the subject of
-- `Cycles.Termination`. Indexing `colors[&root]` panics on a missing key, so it has an outcome.
pub mod Steps
pub mod Termination
pub mod Frames
pub mod Acceptance
pub mod Walks
pub mod Reports
use modular_rust_platform.Base.{
  ℕ, zero, suc, ◌+◌, String, Bool, Option, none, some, List, [], ◌∷◌, ◌++◌, map, Map, get, insert,
  keys, length, get_elem?, drop, drop_last, ◌==◌, if◌then◌else◌,
}
use modular_rust_platform.Di.Container.{
  TypeId, Container, ContainerError, cyclic_dependency, deps_of, name_of, Factory,
}

pub data Color : Type 0 where
  white gray black : Color

-- `colors.get(&dep).copied().unwrap_or(Color::White)`
abbrev pub color_of : Map Color → TypeId → Color
color_of colors id = elim (get colors id) [ none ↦ white | some color ↦ color ]

pub record Search : Type 0 where
  pub colors : Map Color
  pub stack : List (TypeId × ℕ)
  pub path : List TypeId
  pub errors : List ContainerError

-- `path.iter().position(|&x| x == dep).unwrap_or(0)`
abbrev pub position_from : TypeId → List TypeId → ℕ → ℕ
position_from dep [] n = 0
position_from dep (x ∷ xs) n = if x == dep then n else position_from dep xs (n + 1)

abbrev pub position : TypeId → List TypeId → ℕ
position dep path = position_from dep path 0

-- `path[start..]`
abbrev pub cycle_ids : List TypeId → TypeId → List TypeId
cycle_ids path dep = drop (position dep path) path

pub data Scan : Type 0 where
  scanned : List ContainerError → Scan
  out_of_fuel : Scan
  missing_color : Scan

module _ (c : Container) where
  -- All children of `node` are visited.
  unfoldable pub finish : TypeId → List (TypeId × ℕ) → Search → Search
  finish node rest s = record {
    colors = insert node black s.colors;
    stack = rest;
    path = drop_last s.path;
    errors = s.errors;
  }

  -- The `match` on the color of the next child.
  unfoldable pub visit : TypeId → Search → Search
  visit dep s = elim (color_of s.colors dep) [
    | gray ↦ record s {
      errors = s.errors ++ cyclic_dependency (map (name_of c) (cycle_ids s.path dep)) ∷ [];
    }
    | white ↦ record s {
      colors = insert dep gray s.colors;
      path = s.path ++ dep ∷ [];
      stack = (dep, 0) ∷ s.stack;
    }
    | black ↦ s
  ]

  -- One round of the loop, with `(node, child_idx)` on top of `rest`.
  unfoldable pub round : TypeId → ℕ → List (TypeId × ℕ) → Search → Search
  round node child_idx rest s = elim (get_elem? (deps_of c node) child_idx) [
    | none ↦ finish node rest s
    | some dep ↦ visit dep (record s { stack = (node, child_idx + 1) ∷ rest })
  ]

  unfoldable pub search_loop : ℕ → Search → Option Search
  search_loop zero s = elim s.stack [ [] ↦ some s | _ ∷ _ ↦ none ]
  search_loop (suc fuel) s = elim s.stack [
    | [] ↦ some s
    | (node, child_idx) ∷ rest ↦ search_loop fuel (round node child_idx rest s)
  ]

  -- The search from `root`, which is still white.
  unfoldable pub start : TypeId → Map Color → List ContainerError → Search
  start root colors errors = record {
    colors = insert root gray colors;
    stack = (root, 0) ∷ [];
    path = root ∷ [];
    errors = errors;
  }

  unfoldable pub roots_loop : ℕ → List TypeId → Map Color → List ContainerError → Scan
  roots_loop fuel [] colors errors = scanned errors
  roots_loop fuel (root ∷ roots) colors errors = elim (get colors root) [
    | none ↦ missing_color
    | some white ↦ elim (search_loop fuel (start root colors errors)) [
      | none ↦ out_of_fuel
      | some s ↦ roots_loop fuel roots s.colors s.errors
    ]
    | some gray ↦ roots_loop fuel roots colors errors
    | some black ↦ roots_loop fuel roots colors errors
  ]

abbrev pub all_white : List TypeId → Map Color
all_white [] = []
all_white (id ∷ ids) = insert id white (all_white ids)

-- The types that a search can meet: the registered ones and their dependencies.
abbrev pub universe : Map (List TypeId) → List TypeId
universe [] = []
universe ((id, deps) ∷ rest) = id ∷ deps ++ universe rest

-- A round for each child of each type, and one more to leave it.
abbrev pub visits : Container → List TypeId → ℕ
visits c [] = 0
visits c (id ∷ ids) = suc (length (deps_of c id)) + visits c ids

unfoldable pub budget : Container → ℕ
budget c = visits c (keys c.factories ++ universe c.dependencies)

unfoldable pub detect_cycles : Container → Scan
unfolding budget roots_loop search_loop round visit finish start
detect_cycles c = roots_loop c (budget c) (keys c.factories) (all_white (keys c.factories)) []
