-- ===== src/Di/Container/Cycles/Termination.antt =====
-- The search ends within its fuel: each round lowers the work that is left by one.
use modular_rust_platform.Base.{
  ℕ, zero, suc, ◌+◌, ◌-◌, ◌≤◌, ◌≡◌, refl, ap, ◌∙◌, ◌≢◌, none, some, List, [], ◌∷◌, ◌++◌, Map, get,
  insert, keys, length, get_elem?, arith, List-cases, Option-cases, In, In-append, inl, inr,
  get-insert, get_elem?_lt,
}
use modular_rust_platform.Di.Container.{TypeId, Container, ContainerError, deps_of}
use modular_rust_platform.Di.Container.Cycles.{
  Color, white, gray, black, color_of, Search, round, visit, finish, start, search_loop, roots_loop,
  universe, visits, budget, detect_cycles, all_white, scanned,
}
use modular_rust_platform.Di.Container.Cycles.Steps.{
  color_of-insert, loop_rule, In-universe_of_Child, Child, Color-cases, round_done, round_next,
  roots_white, roots_skip,
}

abbrev when_white : Color → ℕ → ℕ
when_white white n = n
when_white _ n = 0

module _ (c : Container) where
  -- The rounds that the types still white will take.
  abbrev white_work : Map Color → List TypeId → ℕ
  white_work colors [] = 0
  white_work colors (id ∷ ids) =
      when_white (color_of colors id) (suc (length (deps_of c id))) + white_work colors ids

  -- The rounds that the frames of the stack will take.
  abbrev frame_work : List (TypeId × ℕ) → ℕ
  frame_work [] = 0
  frame_work ((node, i) ∷ rest) = suc (length (deps_of c node) - i) + frame_work rest

  white_work-le-visits :
      (colors : Map Color) (ids : List TypeId) → white_work colors ids ≤ visits c ids
  white_work-le-visits colors [] = omega arith
  white_work-le-visits colors (id ∷ ids) = ground (arith, white_work-le-visits colors ids)

  white_work-insert :
      (id : TypeId) (color : Color) (colors : Map Color) (ids : List TypeId)
      → color ≢ white
      → white_work (insert id color colors) ids ≤ white_work colors ids
  white_work-insert id color colors [] h = omega arith
  white_work-insert id color colors (j ∷ ids) h =
      ground (arith, white_work-insert id color colors ids h, color_of-insert id color colors j)

  white_work-insert_white :
      (id : TypeId) (color : Color) (colors : Map Color) (ids : List TypeId)
      → color ≢ white
      → color_of colors id ≡ white
      → In id ids
      → white_work (insert id color colors) ids + suc (length (deps_of c id))
        ≤ white_work colors ids
  white_work-insert_white id color colors [] h w m = absurd m
  white_work-insert_white id color colors (j ∷ ids) h w (inl e) =
      ground (arith, white_work-insert id color colors ids h, color_of-insert id color colors j)
  white_work-insert_white id color colors (j ∷ ids) h w (inr m) =
      ground (
        arith,
        white_work-insert_white id color colors ids h w m,
        color_of-insert id color colors j,
      )

  work : List TypeId → Search → ℕ
  work ids s = white_work s.colors ids + frame_work s.stack

  abbrev Closed : List TypeId → Type 0
  Closed ids = (node dep : TypeId) → Child c node dep → In dep ids

  visit-work :
      (ids : List TypeId) (s : Search) (dep : TypeId)
      → In dep ids
      → work ids (visit c dep s) ≤ work ids s
  unfolding work visit
  visit-work ids s dep m = elim (Color-cases (color_of s.colors dep)) [
    | inl w ↦ ground (arith, white_work-insert_white dep gray s.colors ids (λ e. cc) w m)
    | inr (inl g) ↦ ground arith
    | inr (inr b) ↦ ground arith
  ]

  -- A round lowers the work by one.
  round-work :
      (ids : List TypeId)
      → Closed ids
      → (s : Search) (node i : ℕ) (rest : List (TypeId × ℕ)) → s.stack ≡ (node, i) ∷ rest
      → suc (work ids (round c node i rest s)) ≤ work ids s
  unfolding work finish
  round-work ids closed s node i rest e =
      let popped = ap frame_work e in
      elim (Option-cases (get_elem? (deps_of c node) i)) [
        | inl done ↦
            rw (round_done c s node i rest done)
              (omega (arith, white_work-insert node black s.colors ids (λ e. cc)))
        | inr (dep, next) ↦
            let s' = record s { stack = (node, i + 1) ∷ rest } in
            rw (round_next c s node i rest dep next) (
              omega (
                arith,
                visit-work ids s' dep (closed node dep (i, next)),
                get_elem?_lt (deps_of c node) i dep next,
              ))
      ]

  search_ends :
      (ids : List TypeId)
      → Closed ids
      → (fuel : ℕ) (s : Search) → work ids s ≤ fuel
      → (t : Search) × (search_loop c fuel s ≡ some t)
  unfolding search_loop
  search_ends ids closed zero s h = elim (List-cases s.stack) [
    | inl empty ↦ (s, simp (empty, search_loop))
    | inr ((node, i), rest, e) ↦ absurd (omega (arith, round-work ids closed s node i rest e))
  ]
  search_ends ids closed (suc fuel) s h = elim (List-cases s.stack) [
    | inl empty ↦ (s, simp (empty, search_loop))
    | inr ((node, i), rest, e) ↦
        let (t, ends) =
          search_ends ids closed fuel (round c node i rest s)
            (omega (arith, round-work ids closed s node i rest e)) in
        (t, ground arith)
  ]

  -- A type that has a color keeps one.
  round-get-colors :
      (k : TypeId) (s : Search) (node i : ℕ) (rest : List (TypeId × ℕ))
      → get s.colors k ≢ none
      → get (round c node i rest s).colors k ≢ none
  unfolding visit finish
  round-get-colors k s node i rest h = elim (Option-cases (get_elem? (deps_of c node) i)) [
    | inl done ↦
        rw (round_done c s node i rest done) (ground (arith, get-insert node black s.colors k))
    | inr (dep, next) ↦
        rw (round_next c s node i rest dep next) (ground (arith, get-insert dep gray s.colors k))
  ]

  start-work :
      (ids : List TypeId) (root : TypeId) (colors : Map Color) (errors : List ContainerError)
      → In root ids
      → color_of colors root ≡ white
      → work ids (start c root colors errors) ≤ visits c ids
  unfolding work start
  start-work ids root colors errors m w = omega (
    arith,
    white_work-insert_white root gray colors ids (λ e. cc) w m,
    white_work-le-visits colors ids,
  )

  -- So does the search from a root.
  search-get-colors :
      (k : TypeId) (fuel : ℕ) (root : TypeId) (colors : Map Color) (errors : List ContainerError)
      (t : Search)
      → get colors k ≢ none
      → search_loop c fuel (start c root colors errors) ≡ some t
      → get t.colors k ≢ none
  unfolding start
  search-get-colors k fuel root colors errors t h ends =
      let s = start c root colors errors in
      (loop_rule c (λ s. get s.colors k ≢ none)
        (λ s node i rest _. round-get-colors k s node i rest) fuel s t
        (ground (arith, get-insert root gray colors k)) ends).0

  roots_end :
      (fuel : ℕ) (ids : List TypeId)
      → Closed ids
      → visits c ids ≤ fuel
      → (roots : List TypeId) (colors : Map Color) (errors : List ContainerError)
      → ((k : TypeId) → In k roots → In k ids × (get colors k ≢ none))
      → (found : List ContainerError) × (roots_loop c fuel roots colors errors ≡ scanned found)
  unfolding roots_loop
  roots_end fuel ids closed enough [] colors errors known = (errors, refl)
  roots_end fuel ids closed enough (root ∷ roots) colors errors known =
      let later = roots_end fuel ids closed enough roots in
      let others = λ (k : TypeId) (m : In k roots). known k (inr m) in
      elim (Option-cases (get colors root)) [
        | inl missing ↦ absurd ((known root (inl refl)).1 missing)
        | inr (white, e) ↦
            let s = start c root colors errors in
            let (t, ends) = search_ends ids closed fuel s (
              omega (
                arith,
                start-work ids root colors errors (known root (inl refl)).0 (ground arith),
              )) in
            let (found, done) = later t.colors t.errors (λ k m. (
              (known k (inr m)).0,
              search-get-colors k fuel root colors errors t (known k (inr m)).1 ends,
            )) in
            (found, roots_white c fuel root roots colors errors t e ends ∙ done)
        | inr (gray, e) ↦
            let (found, done) = later colors errors others in
            (found, roots_skip c fuel root roots colors errors gray e (λ p. cc) ∙ done)
        | inr (black, e) ↦
            let (found, done) = later colors errors others in
            (found, roots_skip c fuel root roots colors errors black e (λ p. cc) ∙ done)
      ]

get-all_white : (ids : List TypeId) (k : TypeId) → In k ids → get (all_white ids) k ≡ some white
get-all_white [] k m = absurd m
get-all_white (id ∷ ids) k m =
    ground (arith, get-insert id white (all_white ids) k, get-all_white ids k)

-- Whatever is registered, `detect_cycles` returns its list of errors: the rounds that it is given
-- are enough, and no color is missing.
pub detect_cycles_total :
    (c : Container) → (errors : List ContainerError) × (detect_cycles c ≡ scanned errors)
unfolding detect_cycles
detect_cycles_total c =
    let roots = keys c.factories in
    let ids = roots ++ universe c.dependencies in
    roots_end c (budget c) ids
      (λ node dep e. In-append dep roots _ (inr (In-universe_of_Child c node dep e)))
      (unfold budget in omega arith) roots (all_white roots) []
      (λ k m. (In-append k roots _ (inl m), λ e. cc (get-all_white roots k m)))
