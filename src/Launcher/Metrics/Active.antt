-- ===== src/Launcher/Metrics/Active.antt =====
-- What the counter of active requests says.
use modular_rust_platform.Base.{
  ℕ, ◌+◌, String, List, [], ◌∷◌, ◌++◌, str_eq, if◌then◌else◌, ◌≡◌, refl, ap, ◌∙◌, ◌↔◌, arith,
}
use modular_rust_platform.Launcher.Metrics.{
  Pending, State, arrive, respond, abandon, before_next, after_next, Step, arrives, responds,
  abandons, initial, Reachable, at_start, next,
}

-- How many of the requests have the method.
abbrev pub count : String → List Pending → ℕ
count method [] = 0
count method (p ∷ ps) = if str_eq p.method method then count method ps + 1 else count method ps

count-append : (m : String) (xs ys : List Pending) → count m (xs ++ ys) ≡ count m xs + count m ys
count-append m [] ys = omega arith
count-append m (x ∷ xs) ys = ground (arith, count-append m xs ys)

count-remove :
    (m : String) (before : List Pending) (p : Pending) (later : List Pending)
    → count m (before ++ p ∷ later)
      ≡ (if str_eq p.method m then count m (before ++ later) + 1 else count m (before ++ later))
count-remove m before p later =
    ground (arith, count-append m before (p ∷ later), count-append m before later)

abbrev Balanced : State → Type 0
Balanced s =
    (m : String)
    → s.meter.added m ≡ s.meter.subtracted m + count m s.in_flight + count m s.abandoned

Step-Balanced : (s t : State) → Step s t → Balanced s → Balanced t
unfolding arrive respond abandon before_next after_next
Step-Balanced s t (arrives method matched_path now) h m = ground (arith, h m)
Step-Balanced s t (responds before p later elapsed status e) h m =
    ground (arith, h m, ap (count m) e ∙ count-remove m before p later)
Step-Balanced s t (abandons before p later e) h m =
    ground (arith, h m, ap (count m) e ∙ count-remove m before p later)

Reachable-Balanced : (s : State) → Reachable s → Balanced s
unfolding initial
Reachable-Balanced s at_start m = refl
Reachable-Balanced s (next r step) m = Step-Balanced _ s step (Reachable-Balanced _ r) m

-- In every interleaving of requests, once none is in flight, what was added to the counter of active
-- requests of a method is what was subtracted and as many more as requests of that method whose future
-- was dropped or unwound: the counter is back at zero exactly if there was no such request.
pub active_requests-idle :
    (s : State) (m : String)
    → Reachable s
    → s.in_flight ≡ []
    → (s.meter.added m ≡ s.meter.subtracted m + count m s.abandoned)
      × ((s.meter.added m ≡ s.meter.subtracted m) ↔ (count m s.abandoned ≡ 0))
active_requests-idle s m r idle =
    let total = Reachable-Balanced s r m in
    let empty = ap (count m) idle in
    (
      omega (arith, total, empty),
      ((λ e. omega (arith, total, empty, e)), λ e. omega (arith, total, empty, e)),
    )
