-- ===== src/Launcher/Metrics/Tests.antt =====
-- Two requests, of which one is answered and the other times out.
use modular_rust_platform.Base.{◌+◌, some, [], ◌∷◌, ◌≡◌, refl, ◌↔◌}
use modular_rust_platform.Launcher.Metrics.{
  Pending, State, initial, arrive, respond, abandon, before_next, after_next, Reachable, at_start,
  next, arrives, responds, abandons,
}
use modular_rust_platform.Launcher.Metrics.Active.{count, active_requests-idle}

abbrev slow : Pending
slow = record { method = "GET"; route = "/slow"; start = 5 }

abbrev fast : Pending
fast = record { method = "GET"; route = "/fast"; start = 6 }

abbrev idle : State
idle = abandon [] slow [] (
    respond [] fast (slow ∷ []) 1 200
      (arrive "GET" (some "/fast") 6 (arrive "GET" (some "/slow") 5 initial)))

idle-Reachable : Reachable idle
unfolding initial arrive respond abandon before_next after_next
idle-Reachable =
    next
      (next (next (next at_start (arrives "GET" (some "/slow") 5)) (arrives "GET" (some "/fast") 6))
        (responds [] fast (slow ∷ []) 1 200 refl))
      (abandons [] slow [] refl)

active_requests-idle_example :
    (idle.meter.added "GET" ≡ idle.meter.subtracted "GET" + count "GET" idle.abandoned)
    × ((idle.meter.added "GET" ≡ idle.meter.subtracted "GET") ↔ (count "GET" idle.abandoned ≡ 0))
unfolding abandon
active_requests-idle_example = active_requests-idle idle "GET" idle-Reachable refl

counter-stuck : (idle.meter.added "GET" ≡ 2) × (idle.meter.subtracted "GET" ≡ 1)
unfolding initial arrive respond abandon before_next after_next
counter-stuck = (refl, refl)
