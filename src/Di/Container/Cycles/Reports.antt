-- ===== src/Di/Container/Cycles/Reports.antt =====
-- Every reported error names the types of a cycle of the dependency graph.
use modular_rust_platform.Base.{
  ℕ, ◌+◌, ◌≡◌, refl, sym, ap, ◌∙◌, subst, ◌≢◌, inl, inr, some, List, [], ◌∷◌, ◌++◌, keys, Map,
  insert, get_elem?, drop_last, arith, Option-cases, In, In-append, All, All-append,
  drop_last-append,
}
use modular_rust_platform.Di.Container.{TypeId, Container, ContainerError, deps_of}
use modular_rust_platform.Di.Container.Cycles.{
  Color, white, gray, black, color_of, Search, round, visit, finish, start, search_loop, roots_loop,
  all_white, cycle_ids, budget, detect_cycles, scanned,
}
use modular_rust_platform.Di.Container.Cycles.Steps.{
  color_of-insert, loop_rule, Child, Color-cases, round_done, round_next, visit_white, visit_gray,
  visit_black, roots_loop-cases,
}
use modular_rust_platform.Di.Container.Cycles.Walks.{
  LeadsTo, IsCycle, IsReport, path_of, In-append_cases, LinkedTo, Linked, Linked-tail,
  path_of-LeadsTo, cycle_ids-IsCycle,
}

module _ (c : Container) where
  record Inv (s : Search) : Type 0 where
    path : s.path ≡ path_of s.stack
    linked : Linked c s.stack
    grays : (k : TypeId) → color_of s.colors k ≡ gray → In k s.path
    reports : All (IsReport c) s.errors

  visit-Inv :
      (s : Search) (dep node i : ℕ) (rest : List (TypeId × ℕ))
      → s.stack ≡ (node, i) ∷ rest
      → Child c node dep
      → Inv s
      → Inv (visit c dep s)
  visit-Inv s dep node i rest e child h = elim (Color-cases (color_of s.colors dep)) [
    | inl w ↦ rw (visit_white c s dep w) record {
      path = ap (λ p. p ++ dep ∷ []) h.path;
      linked = subst (λ st. LinkedTo c dep st) (sym e) (child, subst (Linked c) e h.linked);
      grays = λ k g.
          ground
            (arith, color_of-insert dep gray s.colors k, h.grays k, In-append k s.path (dep ∷ []));
      reports = h.reports;
    }
    | inr (inl g) ↦
        let at_path : s.path ≡ path_of ((node, i) ∷ rest) = h.path ∙ ap path_of e in
        let walk = path_of-LeadsTo c node i rest dep (subst (Linked c) e h.linked) child in
        let (l, from, cycle) =
          cycle_ids-IsCycle c s.path dep dep (h.grays dep g)
            (subst (λ p. LeadsTo c p dep) (sym at_path) walk) in
        rw (visit_gray c s dep g) record {
          path = h.path;
          linked = h.linked;
          grays = h.grays;
          reports =
              All-append (IsReport c) s.errors _ h.reports
                ((cycle_ids s.path dep, refl, subst (IsCycle c) (sym from) cycle), tt);
        }
    | inr (inr b) ↦ rw (visit_black c s dep b) h
  ]

  finish-grays :
      (k : TypeId) (s : Search) (node : TypeId) (rest : List (TypeId × ℕ))
      → (color_of s.colors k ≡ gray → In k (path_of rest ++ node ∷ []))
      → color_of (insert node black s.colors) k ≡ gray
      → In k (path_of rest)
  finish-grays k s node rest old g =
      ground
        (arith, color_of-insert node black s.colors k, In-append_cases k (path_of rest) (node ∷ []))

  finish-Inv :
      (s : Search) (node i : ℕ) (rest : List (TypeId × ℕ))
      → s.stack ≡ (node, i) ∷ rest
      → Inv s
      → Inv (finish c node rest s)
  unfolding finish
  finish-Inv s node i rest e h =
      let at_path : s.path ≡ path_of ((node, i) ∷ rest) = h.path ∙ ap path_of e in
      let popped : drop_last s.path ≡ path_of rest =
        ap drop_last at_path ∙ drop_last-append (path_of rest) node in
      record {
        path = popped;
        linked = Linked-tail c node rest (subst (Linked c) e h.linked);
        grays = λ k g.
            rw popped (finish-grays k s node rest (λ q. subst (In k) at_path (h.grays k q)) g);
        reports = h.reports;
      }

  round-Inv :
      (s : Search) (node i : ℕ) (rest : List (TypeId × ℕ))
      → s.stack ≡ (node, i) ∷ rest
      → Inv s
      → Inv (round c node i rest s)
  round-Inv s node i rest e h = elim (Option-cases (get_elem? (deps_of c node) i)) [
    | inl done ↦ rw (round_done c s node i rest done) (finish-Inv s node i rest e h)
    | inr (dep, next) ↦ rw (round_next c s node i rest dep next) (
        visit-Inv (record s { stack = (node, i + 1) ∷ rest }) dep node (i + 1) rest refl (i, next)
          (record {
            path = h.path ∙ ap path_of e;
            linked = subst (Linked c) e h.linked;
            grays = h.grays;
            reports = h.reports;
          }))
  ]

  -- Between two searches no type is gray.
  abbrev pub NoGray : Map Color → Type 0
  NoGray colors = (k : TypeId) → color_of colors k ≢ gray

  start-Inv :
      (root : TypeId) (colors : Map Color) (errors : List ContainerError)
      → NoGray colors
      → All (IsReport c) errors
      → Inv (start c root colors errors)
  unfolding start
  start-Inv root colors errors n h = record {
    path = refl;
    linked = tt;
    grays = λ k g. ground (arith, color_of-insert root gray colors k, n k);
    reports = h;
  }

  pub search-NoGray :
      (fuel : ℕ) (root : TypeId) (colors : Map Color) (errors : List ContainerError) (t : Search)
      → NoGray colors
      → All (IsReport c) errors
      → search_loop c fuel (start c root colors errors) ≡ some t
      → NoGray t.colors × All (IsReport c) t.errors
  search-NoGray fuel root colors errors t n h ends =
      let (inv, empty) =
        loop_rule c Inv round-Inv fuel (start c root colors errors) t
          (start-Inv root colors errors n h) ends in
      (λ k g. subst (In k) (inv.path ∙ ap path_of empty) (inv.grays k g), inv.reports)

  roots-reports :
      (fuel : ℕ) (roots : List TypeId) (colors : Map Color) (errors found : List ContainerError)
      → NoGray colors
      → All (IsReport c) errors
      → roots_loop c fuel roots colors errors ≡ scanned found
      → All (IsReport c) found
  unfolding roots_loop
  roots-reports fuel [] colors errors found n h e =
      let same : errors ≡ found = cc in subst (All (IsReport c)) same h
  roots-reports fuel (root ∷ roots) colors errors found n h e =
      elim (roots_loop-cases c fuel root roots colors errors found e) [
        | inl (k, same) ↦ roots-reports fuel roots colors errors found n h same
        | inr (t, _, ends, same) ↦
            let (n', h') = search-NoGray fuel root colors errors t n h ends in
            roots-reports fuel roots t.colors t.errors found n' h' same
      ]

pub all_white-NoGray : (c : Container) (ids : List TypeId) → NoGray c (all_white ids)
all_white-NoGray c [] k = cc
all_white-NoGray c (id ∷ ids) k =
    ground (arith, color_of-insert id white (all_white ids) k, all_white-NoGray c ids k)

-- Each error that `detect_cycles` reports is a cyclic dependency, and its names are the registered
-- names of types of which each depends on the next, and the last on the first.
pub detect_cycles_sound :
    (c : Container) (errors : List ContainerError)
    → detect_cycles c ≡ scanned errors
    → All (IsReport c) errors
unfolding detect_cycles
detect_cycles_sound c errors e =
    roots-reports c (budget c) (keys c.factories) (all_white (keys c.factories)) [] errors
      (all_white-NoGray c (keys c.factories)) tt e
