-- ===== src/Launcher/Observability/Accepted.antt =====
-- When telemetry can be set up.
use modular_rust_platform.Base.{
  inl, inr, String, Bool, true, false, ◌&&◌, List, Result, ok, err, ◌≡◌, refl, sym, ◌∙◌, ◌↔◌,
  Result-cases, Bool-cases, err-ne-ok, false-ne-true,
}
use modular_rust_platform.Launcher.Observability.{
  ObservabilityConfig, Exporters, Failure, prometheus_exporter, metric_exporter, OtelGuard, Event,
  when, init_export, init_providers, init_observability,
}

-- The exporter is built, where its switch is on.
abbrev pub Builds : Bool → Result (Unit {0}) String → Type 0
Builds on build = on ≡ true → build ≡ ok tt

when_iff :
    (on : Bool) (build : Result (Unit {0}) String) (fail : String → Failure)
    → (when on build fail ≡ ok tt) ↔ Builds on build
when_iff false build fail = ((λ e on. absurd (false-ne-true on)), λ h. refl)
when_iff true (ok done) fail = ((λ e on. refl), λ h. refl)
when_iff true (err cause) fail = ((λ e. absurd (err-ne-ok e)), λ h. absurd (err-ne-ok (h refl)))

-- A set-up that ends with a guard.
abbrev pub Succeeds : List Event × Result OtelGuard Failure → Type 0
Succeeds done = (guard : OtelGuard) × (done.1 ≡ ok guard)

module _ (exporters : Exporters) (config : ObservabilityConfig) where
  init_export_iff :
      (events : List Event)
      → Succeeds (init_export exporters config events)
        ↔ ((exporters.span config.protocol ≡ ok tt) × (exporters.log config.protocol ≡ ok tt))
  unfolding init_export
  init_export_iff events = elim (Result-cases (exporters.span config.protocol)) [
    | inr (cause, s) ↦
        rw (s, init_export) ((λ (guard, e). absurd (err-ne-ok e)), λ (h, l). absurd (err-ne-ok h))
    | inl (_, s) ↦ elim (Result-cases (exporters.log config.protocol)) [
      | inr (cause, l) ↦
          rw (s, init_export)
            (rw (l, init_export)
              ((λ (guard, e). absurd (err-ne-ok e)), λ (h, k). absurd (err-ne-ok k)))
      | inl (_, l) ↦ rw (s, init_export) (rw (l, init_export) ((λ h. (refl, refl)), λ h. (_, refl)))
    ]
  ]

  init_providers_iff : Succeeds (init_providers exporters config) ↔ (
      Builds config.enabled (exporters.span config.protocol)
      × Builds config.enabled (exporters.log config.protocol))
  unfolding init_providers
  init_providers_iff = elim (Bool-cases config.enabled) [
    | inl on ↦
        let rest = init_export_iff _ in
        simp (on, init_providers)
          ((λ h. let (s, l) = rest.0 h in ((λ e. s), λ e. l)), λ (s, l). rest.1 (s refl, l refl))
    | inr off ↦
        simp (off, init_providers)
          ((λ h. ((λ e. absurd (false-ne-true e)), λ e. absurd (false-ne-true e))), λ h. (_, refl))
  ]

  -- Telemetry is set up exactly if each exporter that the configuration asks for can be built: that of
  -- Prometheus, and where export is enabled, those of the spans, of the logs, and of the metrics if they
  -- are enabled too.
  pub init_observability_iff : Succeeds (init_observability exporters config) ↔ (
      Builds config.prometheus_enabled exporters.prometheus
      × Builds (config.enabled && config.metrics_enabled) (exporters.metric config.protocol)
      × Builds config.enabled (exporters.span config.protocol)
      × Builds config.enabled (exporters.log config.protocol))
  unfolding init_observability
  init_observability_iff =
      let prometheus =
        when_iff config.prometheus_enabled exporters.prometheus prometheus_exporter in
      let metrics =
        when_iff (config.enabled && config.metrics_enabled) (exporters.metric config.protocol)
          metric_exporter in
      elim (Result-cases
        (when config.prometheus_enabled exporters.prometheus prometheus_exporter)) [
          | inr (cause, p) ↦ (
            (λ (guard, e). absurd (err-ne-ok (rw (p, init_observability) at e))),
            λ (h, k, s, l). absurd (err-ne-ok (sym p ∙ prometheus.1 h)),
          )
          | inl (_, p) ↦
              elim (Result-cases (
                when (config.enabled && config.metrics_enabled) (exporters.metric config.protocol)
                  metric_exporter)) [
                    | inr (cause, m) ↦ (
                      (λ (guard, e). absurd (
                          err-ne-ok
                            (rw (m, init_observability) at (rw (p, init_observability) at e)))),
                      λ (h, k, s, l). absurd (err-ne-ok (sym m ∙ metrics.1 k)),
                    )
                    | inl (_, m) ↦ (
                      (λ (guard, e).
                          let (s, l) = init_providers_iff.0 (
                            guard,
                            rw (m, init_observability) at (rw (p, init_observability) at e),
                          ) in
                          (prometheus.0 p, metrics.0 m, s, l)),
                      λ (h, k, s, l).
                          let (guard, e) = init_providers_iff.1 (s, l) in
                          (guard, rw (p, init_observability) (rw (m, init_observability) e)),
                    )
                  ]
        ]
