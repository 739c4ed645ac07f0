-- ===== src/Di/Container/Cycles/Acceptance.antt =====
-- The search reports nothing exactly if the dependency graph has no cycle and no infinite descent.
use mathlib.Core.WellFounded.{Acc, WellFounded}
use modular_rust_platform.Base.{
  ℕ, ◌+◌, ◌≡◌, refl, sym, ap, ◌∙◌, subst, ◌≢◌, ◌⊎◌, ◌↔◌, inl, inr, none, some, List, [], ◌∷◌, ◌++◌,
  keys, Map, get, get_elem?, arith, List-cases, Option-cases, In, All, In-keys_of_get,
}
use modular_rust_platform.Di.Container.{TypeId, Container, ContainerError, deps_of, IsWellFormed}
use modular_rust_platform.Di.Container.Cycles.{
  Color, white, gray, black, color_of, Search, round, finish, start, search_loop, roots_loop,
  all_white, budget, detect_cycles, scanned,
}
use modular_rust_platform.Di.Container.Cycles.Steps.{
  color_of-insert, loop_rule, Child, Color-cases, round_done, round_next, visit_white, visit_gray,
  visit_black, roots_loop-cases,
}
use modular_rust_platform.Di.Container.Cycles.Frames.{
  DependsOn, Buildable, insert-built, append-ne-nil, Inv, round-Inv, KeepsBlack,
}
use modular_rust_platform.Di.Container.Cycles.Termination.{detect_cycles_total}
use modular_rust_platform.Di.Container.Cycles.Reports.{
  NoGray, search-NoGray, all_white-NoGray, detect_cycles_sound,
}
use modular_rust_platform.Di.Container.Cycles.Walks.{LeadsTo, LeadsTo-append, IsReport}

module _ (c : Container) where
  -- What a round never undoes: a black type stays black, a visited type is not white again, and
  -- the errors grow.
  record Keeps (s t : Search) : Type 0 where
    blacks : KeepsBlack c s.colors t.colors
    visits : (k : TypeId) → color_of s.colors k ≢ white → color_of t.colors k ≢ white
    clean : t.errors ≡ [] → s.errors ≡ []

  Keeps-trans : {s t u : Search} → Keeps s t → Keeps t u → Keeps s u
  Keeps-trans p q = record {
    blacks = λ k b. q.blacks k (p.blacks k b);
    visits = λ k w. q.visits k (p.visits k w);
    clean = λ e. p.clean (q.clean e);
  }

  round-Keeps :
      (s : Search) (node i : ℕ) (rest : List (TypeId × ℕ)) → Keeps s (round c node i rest s)
  unfolding finish
  round-Keeps s node i rest = elim (Option-cases (get_elem? (deps_of c node) i)) [
    | inl done ↦ rw (round_done c s node i rest done) record {
      blacks = λ k b. ground (arith, color_of-insert node black s.colors k);
      visits = λ k w. ground (arith, color_of-insert node black s.colors k);
      clean = λ e. e;
    }
    | inr (dep, next) ↦
        let s' = record s { stack = (node, i + 1) ∷ rest } in
        rw (round_next c s node i rest dep next) elim (Color-cases (color_of s.colors dep)) [
          | inl w ↦ rw (visit_white c s' dep w) record {
            blacks = λ k b. ground (arith, color_of-insert dep gray s.colors k);
            visits = λ k q. ground (arith, color_of-insert dep gray s.colors k);
            clean = λ e. e;
          }
          | inr (inl g) ↦ rw (visit_gray c s' dep g) record {
            blacks = λ k b. b;
            visits = λ k q. q;
            clean = λ e. absurd (append-ne-nil c s.errors _ e);
          }
          | inr (inr b) ↦
              rw (visit_black c s' dep b)
                record { blacks = λ k p. p; visits = λ k q. q; clean = λ e. e }
        ]
  ]

  search-Keeps : (fuel : ℕ) (s t : Search) → search_loop c fuel s ≡ some t → Keeps s t
  search-Keeps fuel s t ends =
      (loop_rule c (Keeps s) (λ u node i rest _ k. Keeps-trans k (round-Keeps u node i rest)) fuel s
        t (record { blacks = λ k b. b; visits = λ k w. w; clean = λ e. e }) ends).0

  -- All black types can be built, as long as no error is found.
  abbrev Built : Map Color → List ContainerError → Type 0
  Built colors errors = errors ≡ [] → (k : TypeId) → color_of colors k ≡ black → Buildable c k

  start-Inv :
      (root : TypeId) (colors : Map Color) (errors : List ContainerError)
      → Built colors errors
      → Inv c (start c root colors errors)
  unfolding start
  start-Inv root colors errors h e = record {
    built = λ k b. insert-built c colors root k gray (λ p. cc) (h e k) b;
    frames = (λ j d lt at. absurd (omega arith), tt);
  }

  search-Built :
      (fuel : ℕ) (root : TypeId) (colors : Map Color) (errors : List ContainerError) (t : Search)
      → Built colors errors
      → search_loop c fuel (start c root colors errors) ≡ some t
      → Built t.colors t.errors
  search-Built fuel root colors errors t h ends clean =
      ((loop_rule c (Inv c) (round-Inv c) fuel (start c root colors errors) t
          (start-Inv root colors errors h) ends).0
        clean).built

  start-Keeps :
      (root : TypeId) (colors : Map Color) (errors : List ContainerError) (k : TypeId)
      → color_of colors root ≡ white
      → color_of colors k ≡ black
      → color_of (start c root colors errors).colors k ≡ black
  unfolding start
  start-Keeps root colors errors k w b = ground (arith, color_of-insert root gray colors k)

  start-visited :
      (root : TypeId) (colors : Map Color) (errors : List ContainerError)
      → color_of (start c root colors errors).colors root ≢ white
  unfolding start
  start-visited root colors errors = ground (arith, color_of-insert root gray colors root)

  black_of : (color : Color) → color ≢ white → color ≢ gray → color ≡ black
  black_of white w g = absurd (w refl)
  black_of gray w g = absurd (g refl)
  black_of black w g = refl

  roots-Buildable :
      (fuel : ℕ) (roots : List TypeId) (colors : Map Color) (errors : List ContainerError)
      → NoGray c colors
      → All (IsReport c) errors
      → Built colors errors
      → roots_loop c fuel roots colors errors ≡ scanned []
      → (errors ≡ []) × ((k : TypeId) → In k roots ⊎ (color_of colors k ≡ black) → Buildable c k)
  unfolding roots_loop start
  roots-Buildable fuel [] colors errors n h built e =
      let clean : errors ≡ [] = cc in
      (clean, λ k m. elim m [ inl never ↦ absurd never | inr b ↦ built clean k b ])
  roots-Buildable fuel (root ∷ roots) colors errors n h built e =
      elim (roots_loop-cases c fuel root roots colors errors [] e) [
        | inl (seen, same) ↦
            let (clean, all) = roots-Buildable fuel roots colors errors n h built same in
            (
              clean,
              λ k m. elim m [
                | inl (inl first) ↦
                    subst (Buildable c) (sym first)
                      (all root (inr (black_of (color_of colors root) seen (n root))))
                | inl (inr later) ↦ all k (inl later)
                | inr b ↦ all k (inr b)
              ],
            )
        | inr (t, w, ends, same) ↦
            let (n', h') = search-NoGray c fuel root colors errors t n h ends in
            let keeps = search-Keeps fuel (start c root colors errors) t ends in
            let (clean, all) =
              roots-Buildable fuel roots t.colors t.errors n' h'
                (search-Built fuel root colors errors t built ends) same in
            (
              keeps.clean clean,
              λ k m. elim m [
                | inl (inl first) ↦ subst (Buildable c) (sym first) (
                    all root (
                      inr (
                        black_of (color_of t.colors root)
                          (keeps.visits root (start-visited root colors errors)) (n' root))))
                | inl (inr later) ↦ all k (inl later)
                | inr b ↦ all k (inr (keeps.blacks k (start-Keeps root colors errors k w b)))
              ],
            )
      ]

all_white-ne-black : (ids : List TypeId) (k : TypeId) → color_of (all_white ids) k ≢ black
all_white-ne-black [] k = cc
all_white-ne-black (id ∷ ids) k =
    ground (arith, color_of-insert id white (all_white ids) k, all_white-ne-black ids k)

-- A type that is not registered has no dependencies.
deps_of-missing :
    (c : Container) (node dep : TypeId) → get c.dependencies node ≡ none → Child c node dep → ⊥
deps_of-missing c node dep missing (i, e) = ground arith

detect_cycles-Buildable :
    (c : Container) → IsWellFormed c → detect_cycles c ≡ scanned [] → WellFounded (DependsOn c)
unfolding detect_cycles
detect_cycles-Buildable c w e =
    let roots = keys c.factories in
    let all =
      (roots-Buildable c (budget c) roots (all_white roots) [] (all_white-NoGray c roots) tt
        (λ _ k b. absurd (all_white-ne-black roots k b)) e).1 in
    record {
      apply = λ node. elim (Option-cases (get c.dependencies node)) [
        | inl missing ↦ Acc.intro node (λ dep d. absurd (deps_of-missing c node dep missing d))
        | inr (deps, known) ↦ all node (
            inl (subst (In node) w.dependency_keys (In-keys_of_get c.dependencies node deps known)))
      ];
    }

-- A cycle through a type would be an infinite descent below it.
no_cycle :
    (c : Container) (x : TypeId) → Buildable c x → (l : List TypeId) → ¬ (LeadsTo c (x ∷ l) x)
no_cycle c x (Acc.intro _ below) [] h = no_cycle c x (below x h) [] h
no_cycle c x (Acc.intro _ below) (y ∷ l) (first, rest) =
    no_cycle c y (below y first) (l ++ x ∷ []) (LeadsTo-append c (y ∷ l) x y rest first)

not-IsReport : (c : Container) (e : ContainerError) → WellFounded (DependsOn c) → ¬ (IsReport c e)
not-IsReport c e wf ([], _, cycle) = cycle
not-IsReport c e wf (x ∷ l, _, cycle) = no_cycle c x (wf.apply x) l cycle

-- For a container built by registrations: `detect_cycles` reports no error exactly if the relation
-- "is a direct dependency of" is well-founded, so that every component can be built after the
-- components that it declares.
pub detect_cycles_iff :
    (c : Container) → IsWellFormed c → (detect_cycles c ≡ scanned []) ↔ WellFounded (DependsOn c)
detect_cycles_iff c w = (
  detect_cycles-Buildable c w,
  λ wf.
      let (errors, e) = detect_cycles_total c in
      elim (List-cases errors) [
        | inl clean ↦ e ∙ ap scanned clean
        | inr (first, rest, more) ↦ absurd (
            not-IsReport c first wf
              (subst (All (IsReport c)) more (detect_cycles_sound c errors e)).0)
      ],
)
