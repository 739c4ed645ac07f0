-- ===== src/Launcher/Run/Shutdown.antt =====
-- How `run` ends: what succeeds, and which shutdowns have been asked for.
use modular_rust_platform.Base.{
  ℕ, String, Bool, true, ◌&&◌, ◌≡◌, refl, ap, subst, ◌↔◌, ◌⊎◌, inl, inr, List, [], ◌∷◌, ◌++◌, In,
  In-append_iff, append-nil, Result, ok, err, Result-cases, Bool-cases, ok_injective, err-ne-ok,
}
use modular_rust_platform.Launcher.Observability.{
  Kind, Failure, OtelGuard, Exporters, init_observability, shutdown, drop_guard, holds,
}
use modular_rust_platform.Launcher.Observability.Guard.{
  drop_guard-In, shutdown_iff, shutdown-drop_guard, shutdown-asked,
}
use modular_rust_platform.Launcher.Server.{BootstrapConfig}
use modular_rust_platform.Launcher.Run.{
  OpenApi, Stage, RunError, guard_shut_down, guard_dropped, finish_run, serve_until_shutdown,
  run_with, run,
}

-- The providers whose shutdown the stages ask for, whatever it returns.
abbrev pub asked_by : List Stage → List Kind
asked_by [] = []
asked_by (guard_shut_down kinds ∷ stages) = kinds ++ asked_by stages
asked_by (guard_dropped kinds ∷ stages) = kinds ++ asked_by stages
asked_by (_ ∷ stages) = asked_by stages

-- Those that the call of `shutdown` in `run` asks, before the guard is dropped.
abbrev pub asked_by_shutdown : List Stage → List Kind
asked_by_shutdown [] = []
asked_by_shutdown (guard_shut_down kinds ∷ stages) = kinds ++ asked_by_shutdown stages
asked_by_shutdown (_ ∷ stages) = asked_by_shutdown stages

finish_run-shutdown :
    (guard : OtelGuard) (steps : List Kind × Result (Unit {0}) Failure)
    → asked_by_shutdown (finish_run guard steps).0 ≡ steps.0
unfolding finish_run
finish_run-shutdown guard (asked, ok _) = append-nil asked
finish_run-shutdown guard (asked, err e) = append-nil asked

finish_run-kinds :
    (guard : OtelGuard) (steps : List Kind × Result (Unit {0}) Failure)
    → asked_by (finish_run guard steps).0 ≡ steps.0 ++ drop_guard guard
unfolding finish_run
finish_run-kinds guard (shut, ok _) = ap (shut ++◌) (append-nil (drop_guard guard))
finish_run-kinds guard (shut, err e) = ap (shut ++◌) (append-nil (drop_guard guard))

dropped-shut :
    (guard : OtelGuard) (kind : Kind)
    → In kind (asked_by (guard_dropped (drop_guard guard) ∷ [])) ↔ (holds guard kind ≡ true)
dropped-shut guard kind = rw (append-nil (drop_guard guard)) (drop_guard-In guard kind)

module _ (bind : ℕ → Result (Unit {0}) String) (serve : Result (Unit {0}) String)
    (stop : Kind → Result (Unit {0}) String) where
  finish_run-shut :
      (guard : OtelGuard) (kind : Kind)
      → In kind (asked_by (finish_run guard (shutdown stop guard)).0) ↔ (holds guard kind ≡ true)
  unfolding finish_run
  finish_run-shut guard kind =
      let both = In-append_iff kind (shutdown stop guard).0 (drop_guard guard) in
      let ends = shutdown-drop_guard stop guard kind in
      rw (finish_run-kinds guard (shutdown stop guard))
        ((λ i. ends.0 (both.0 i)), λ h. both.1 (ends.1 h))

  serve-shut :
      (port : ℕ) (guard : OtelGuard) (kind : Kind)
      → In kind (asked_by (serve_until_shutdown bind serve stop port guard).0)
        ↔ (holds guard kind ≡ true)
  unfolding serve_until_shutdown
  serve-shut port guard kind = elim (Result-cases (bind port)) [
    | inr (e, b) ↦ rw (b, serve_until_shutdown) (dropped-shut guard kind)
    | inl (_, b) ↦ elim (Result-cases serve) [
      | inr (e, s) ↦
          rw (b, serve_until_shutdown) (rw (s, serve_until_shutdown) (dropped-shut guard kind))
      | inl (_, s) ↦
          rw (b, serve_until_shutdown) (rw (s, serve_until_shutdown) (finish_run-shut guard kind))
    ]
  ]

  run_with-shut :
      (config : BootstrapConfig) (openapi : OpenApi) (a h m : Bool) (guard : OtelGuard)
      (kind : Kind)
      → In kind (asked_by (run_with bind serve stop config openapi a h m guard).0)
        ↔ (holds guard kind ≡ true)
  unfolding run_with
  run_with-shut config openapi a h m guard kind =
      elim (Bool-cases (guard.prometheus_registry && m)) [
        | inl e ↦ rw e (serve-shut config.port guard kind)
        | inr e ↦ rw e (serve-shut config.port guard kind)
      ]

  finish_run_iff :
      (guard : OtelGuard) (steps : List Kind × Result (Unit {0}) Failure)
      → ((finish_run guard steps).1 ≡ ok tt) ↔ (steps.1 ≡ ok tt)
  unfolding finish_run
  finish_run_iff guard (shut, ok u) = ((λ e. refl), λ e. refl)
  finish_run_iff guard (shut, err e) = ((λ h. absurd (err-ne-ok h)), λ h. absurd (err-ne-ok h))

  serve_iff :
      (port : ℕ) (guard : OtelGuard)
      → ((serve_until_shutdown bind serve stop port guard).1 ≡ ok tt) ↔ (
          (bind port ≡ ok tt)
          × (serve ≡ ok tt)
          × ((kind : Kind) → holds guard kind ≡ true → stop kind ≡ ok tt))
  unfolding serve_until_shutdown
  serve_iff port guard = elim (Result-cases (bind port)) [
    | inr (e, b) ↦
        rw (b, serve_until_shutdown)
          ((λ h. absurd (err-ne-ok h)), λ (h, s, k). absurd (err-ne-ok h))
    | inl (_, b) ↦ elim (Result-cases serve) [
      | inr (e, s) ↦
          rw (b, serve_until_shutdown)
            (rw (s, serve_until_shutdown)
              ((λ h. absurd (err-ne-ok h)), λ (_, h, k). absurd (err-ne-ok h)))
      | inl (_, s) ↦
          let last = finish_run_iff guard (shutdown stop guard) in
          let all = shutdown_iff stop guard in
          rw (b, serve_until_shutdown)
            (rw (s, serve_until_shutdown)
              ((λ h. (refl, refl, all.0 (last.0 h))), λ (_, _, k). last.1 (all.1 k)))
    ]
  ]

  serve-shutdown :
      (port : ℕ) (guard : OtelGuard) (kind : Kind)
      → (serve_until_shutdown bind serve stop port guard).1 ≡ ok tt
      → In kind (asked_by_shutdown (serve_until_shutdown bind serve stop port guard).0)
        ↔ (holds guard kind ≡ true)
  unfolding serve_until_shutdown
  serve-shutdown port guard kind e =
      let (b, s, k) = (serve_iff port guard).0 e in
      rw (b, serve_until_shutdown)
        (rw (s, serve_until_shutdown)
          (rw (finish_run-shutdown guard (shutdown stop guard))
            (shutdown-asked stop guard kind ((shutdown_iff stop guard).1 k))))

  run_with-shutdown :
      (config : BootstrapConfig) (openapi : OpenApi) (a h m : Bool) (guard : OtelGuard)
      (kind : Kind)
      → (run_with bind serve stop config openapi a h m guard).1 ≡ ok tt
      → In kind (asked_by_shutdown (run_with bind serve stop config openapi a h m guard).0)
        ↔ (holds guard kind ≡ true)
  unfolding run_with
  run_with-shutdown config openapi a h m guard kind done =
      elim (Bool-cases (guard.prometheus_registry && m)) [
        | inl e ↦ rw e (serve-shutdown config.port guard kind done)
        | inr e ↦ rw e (serve-shutdown config.port guard kind done)
      ]

  -- Once telemetry is set up, the shutdown of each provider that its guard holds, and of no other, has
  -- been asked for when `run` ends, with success or with any of its errors. Where `run` ends without an
  -- error, its own call of `shutdown` has asked for each of them, and not only the drop of the guard.
  pub run-asked_by :
      (exporters : Exporters) (config : BootstrapConfig) (openapi : OpenApi) (a h m : Bool)
      (guard : OtelGuard) (kind : Kind)
      → (init_observability exporters config.observability).1 ≡ ok guard
      → let ended = run bind serve stop exporters config openapi a h m in
        (In kind (asked_by ended.0) ↔ (holds guard kind ≡ true))
        × (((cause : RunError) × (ended.1 ≡ err cause))
            ⊎ (In kind (asked_by_shutdown ended.0) ↔ (holds guard kind ≡ true)))
  unfolding run
  run-asked_by exporters config openapi a h m guard kind e =
      rw (e, run)
        (
          run_with-shut config openapi a h m guard kind,
          elim (Result-cases (run_with bind serve stop config openapi a h m guard).1) [
            | inl (done, success) ↦ inr (run_with-shutdown config openapi a h m guard kind success)
            | inr (cause, failed) ↦ inl (cause, failed)
          ],
        )

  -- `run` returns without an error exactly if telemetry could be set up, the configured port was bound,
  -- the server ended without an error, and each telemetry provider shut down.
  pub run_iff :
      (exporters : Exporters) (config : BootstrapConfig) (openapi : OpenApi) (a h m : Bool)
      → ((run bind serve stop exporters config openapi a h m).1 ≡ ok tt) ↔ (
          (guard : OtelGuard) × ((init_observability exporters config.observability).1 ≡ ok guard)
          × (bind config.port ≡ ok tt)
          × (serve ≡ ok tt)
          × ((kind : Kind) → holds guard kind ≡ true → stop kind ≡ ok tt))
  unfolding run run_with
  run_iff exporters config openapi a h m =
      elim (Result-cases (init_observability exporters config.observability).1) [
        | inr (e, i) ↦
            rw (i, run) ((λ h. absurd (err-ne-ok h)), λ (g, h, _, _, _). absurd (err-ne-ok h))
        | inl (guard, i) ↦
            let rest = serve_iff config.port guard in
            rw (i, run)
              (
                (λ h. let (b, s, k) = rest.0 h in (guard, refl, b, s, k)),
                λ (g, same, b, s, k). rest.1 (
                  b,
                  s,
                  λ kind held. k kind (subst (λ x. holds x kind ≡ true) (ok_injective same) held),
                ),
              )
      ]
