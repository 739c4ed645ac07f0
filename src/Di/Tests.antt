-- ===== src/Di/Tests.antt =====
-- Sample containers: a repository and a service that looks it up, a panicking factory, and a cycle.
use modular_rust_platform.Base.{
  ℕ, List, [], ◌∷◌, none, Map, ◌≡◌, refl, ◌↔◌, inl, inr, All, In, keys, suc,
}
use modular_rust_platform.Di.Container.{
  Container, ContainerError, cyclic_dependency, not_registered, Build, instance_of, panic, ask,
  Answer, found, failed, Request, component, Cell, ready, concrete, new, register_with_deps,
  register_trait_with_deps, register, register_trait, register_instance,
}
use modular_rust_platform.Di.Container.Cycles.{
  detect_cycles, scanned, budget, roots_loop, search_loop, round, visit, finish, start,
}
use modular_rust_platform.Di.Container.Resolve.{
  done, validate, validate_loop, check_cell, try_lookup, get_or_init, downcast_run, downcast, exec,
  settle,
}
use mathlib.Core.WellFounded.{WellFounded}
use modular_rust_platform.Base.{get}
use modular_rust_platform.Di.Container.Cycles.Termination.{detect_cycles_total}
use modular_rust_platform.Di.Container.Cycles.Reports.{detect_cycles_sound}
use modular_rust_platform.Di.Container.Cycles.Walks.{IsReport}
use modular_rust_platform.Di.Container.Cycles.Acceptance.{detect_cycles_iff}
use modular_rust_platform.Di.Container.Cycles.Frames.{DependsOn}
use modular_rust_platform.Di.Container.Resolve.Cells.{Grows, Grows-refl}
use modular_rust_platform.Di.Container.Resolve.Declared.{Declares}
use modular_rust_platform.Di.Container.Resolve.Singletons.{lookup-failed, lookup_again}
use modular_rust_platform.Di.Container.Safety.{
  IsSafe, new-IsSafe, registrations-IsSafe, validate_returns, validate-lookup,
}
use modular_rust_platform.Di.Context
use modular_rust_platform.Di.Context.{
  register_all, create, register_all-validate, register_all-lookup, register_services,
}

-- A repository that needs nothing, and a service whose factory looks it up.
abbrev repository : Request
repository = component 1 "Repository"

abbrev service : Build
service = ask repository (λ a. elim a [ found v ↦ instance_of (suc v) | failed e ↦ panic ])

abbrev assemble : Container → Container
assemble c =
    register_with_deps 2 service "Service" (2 ∷ []) (register 1 (instance_of 10) "Repository" c)

abbrev assembled : Container
assembled = assemble new

-- Two components that declare each other.
abbrev knot : Container
knot =
    register_with_deps 2 (instance_of 2) "B" (2 ∷ [])
      (register_with_deps 1 (instance_of 1) "A" (4 ∷ []) new)

-- The cells after both components of `assembled` are built.
abbrev built : Map Cell
built = (2, ready (concrete 1 10)) ∷ (4, ready (concrete 2 11)) ∷ []

detect_cycles-knot : detect_cycles knot ≡ scanned (cyclic_dependency ("A" ∷ "B" ∷ []) ∷ [])
unfolding new register_with_deps budget roots_loop search_loop round visit finish start
    detect_cycles
detect_cycles-knot = refl

detect_cycles-assembled : detect_cycles assembled ≡ scanned []
unfolding new register_with_deps register budget roots_loop search_loop round visit finish start
    detect_cycles
detect_cycles-assembled = refl

validate-assembled : validate assembled ≡ done [] built
unfolding new register_with_deps register budget roots_loop search_loop round visit finish start
    detect_cycles validate validate_loop check_cell try_lookup get_or_init downcast_run downcast
    exec settle
validate-assembled = refl

lookup-assembled :
    try_lookup assembled 4 (component 2 "Service") assembled.singletons ≡ done (found 11) built
unfolding new register_with_deps register try_lookup get_or_init downcast_run downcast exec settle
lookup-assembled = refl

service_tail :
    (a : Answer) → Declares (2 ∷ []) (elim a [ found v ↦ instance_of (suc v) | failed e ↦ panic ])
service_tail (found v) = tt
service_tail (failed e) = tt

service-listed : In 4 (keys assembled.factories)
unfolding new register_with_deps register
service-listed = inr (inl refl)

cache-missing :
    try_lookup assembled 1 (component 3 "Cache") assembled.singletons
    ≡ done (failed (not_registered "Cache")) assembled.singletons
unfolding new register_with_deps register try_lookup
cache-missing = refl

register_all-assembled : (register_all (assemble ∷ []) (create (λ k. none))).container ≡ assembled
unfolding register_all create register_services
register_all-assembled = refl

validate-register_all :
    Context.validate (register_all (assemble ∷ []) (create (λ k. none))) ≡ done [] built
unfolding Context.validate register_all create register_services
validate-register_all = validate-assembled

assemble-IsSafe : (c : Container) → IsSafe c → IsSafe (assemble c)
assemble-IsSafe c h =
    let first =
      (registrations-IsSafe c h 1 (instance_of 10) (instance_of 10) 10 "Repository" [] tt tt).2 in
    (registrations-IsSafe (register 1 (instance_of 10) "Repository" c) first 2 service
      (instance_of 0) 0 "Service" (2 ∷ []) (inl refl, service_tail) tt).0

assembled-IsSafe : IsSafe assembled
assembled-IsSafe = assemble-IsSafe new new-IsSafe

detect_cycles_total_example : (errors : List ContainerError) × (detect_cycles knot ≡ scanned errors)
detect_cycles_total_example = detect_cycles_total knot

detect_cycles_sound_example : All (IsReport knot) (cyclic_dependency ("A" ∷ "B" ∷ []) ∷ [])
detect_cycles_sound_example =
    detect_cycles_sound knot (cyclic_dependency ("A" ∷ "B" ∷ []) ∷ []) detect_cycles-knot

detect_cycles_iff_example :
    (detect_cycles assembled ≡ scanned []) ↔ WellFounded (DependsOn assembled)
detect_cycles_iff_example = detect_cycles_iff assembled assembled-IsSafe.well_formed

registrations-IsSafe_example :
    IsSafe (register_with_deps 2 service "Service" (2 ∷ []) assembled)
    × IsSafe (register_trait_with_deps 2 service "Service" (2 ∷ []) assembled)
    × IsSafe (register 2 (instance_of 0) "Service" assembled)
    × IsSafe (register_trait 2 (instance_of 0) "Service" assembled)
    × IsSafe (register_instance 2 7 "Service" assembled)
registrations-IsSafe_example =
    registrations-IsSafe assembled assembled-IsSafe 2 service (instance_of 0) 7 "Service" (2 ∷ [])
      (inl refl, service_tail) tt

validate_returns_example :
    (errors : List ContainerError) × (m : Map Cell) × (validate assembled ≡ done errors m)
    × Grows assembled.singletons m
validate_returns_example = validate_returns assembled assembled-IsSafe

validate-lookup_example :
    (v : ℕ) × (try_lookup assembled 1 (component 2 "Service") built ≡ done (found v) built)
validate-lookup_example =
    validate-lookup assembled assembled-IsSafe built validate-assembled (component 2 "Service")
      service-listed 0

lookup-failed_example :
    (not_registered "Cache" ≡ not_registered "Cache")
    × (get assembled.singletons 6 ≡ none)
    × (assembled.singletons ≡ assembled.singletons)
lookup-failed_example =
    lookup-failed assembled 1 (component 3 "Cache") assembled.singletons assembled.singletons
      (not_registered "Cache") assembled-IsSafe.typed_factories assembled-IsSafe.typed_cells
      cache-missing

lookup_again_example : try_lookup assembled 1 (component 2 "Service") built ≡ done (found 11) built
lookup_again_example =
    lookup_again assembled 4 (component 2 "Service") assembled.singletons built built 11
      lookup-assembled (Grows-refl built) 0
