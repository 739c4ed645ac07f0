-- ===== src/Seaorm/QueryTracing/Instruments.antt =====
-- The instruments that the callback of crates/stano-seaorm/src/query_tracing.rs resolves at its first query, and the
-- providers of OpenTelemetry that they are bound to: a meter and a tracer stay with the providers that are
-- installed when they are made. A provider is its number, 0 the one that does nothing; those of the meters and
-- of the tracers are installed independently.
use modular_rust_platform.Base.{
  ℕ, Option, none, some, List, [], ◌∷◌, ◌++◌, ◌≡◌, refl, sym, ap, ◌∙◌, append_assoc, append-nil,
}
use modular_rust_platform.Seaorm.QueryTracing.{
  QueryTracingConfig, Info, Emitted, query_tracing_callback,
}

-- The providers of the meters and of the tracers that are installed, or that instruments are bound to.
pub record Providers : Type 0 where
  pub meter : ℕ
  pub tracer : ℕ

-- `gauges` are the meter providers at which the gauge of the pool is registered, and `records` what was emitted to which.
pub record Telemetry : Type 0 where
  pub providers : Providers
  pub instruments : Option Providers
  pub gauges : List ℕ
  pub records : List (Providers × Emitted)

pub data Event : Type 0 where
  set_meter_provider set_tracer_provider : ℕ → Event
  query : ℕ → Info → Event

-- `OnceLock::get_or_init` for what the cell holds, with the closure that registers the gauge.
unfoldable pub get_or_init : Option Providers → Telemetry → Providers × Telemetry
get_or_init (some p) s = (p, s)
get_or_init none s = (
  s.providers,
  record s { instruments = some s.providers; gauges = s.gauges ++ s.providers.meter ∷ [] },
)

-- The closure that `query_tracing_callback` returns, at the time of a query.
unfoldable pub on_query : QueryTracingConfig → ℕ → Info → Telemetry → Telemetry
unfolding get_or_init query_tracing_callback
on_query config now info s =
    let (p, t) = get_or_init s.instruments s in
    record t { records = t.records ++ (p, query_tracing_callback config now info) ∷ [] }

abbrev pub with_meter : ℕ → Providers → Providers
with_meter p installed = record installed { meter = p }

abbrev pub with_tracer : ℕ → Providers → Providers
with_tracer p installed = record installed { tracer = p }

unfoldable pub happen : QueryTracingConfig → Event → Telemetry → Telemetry
unfolding on_query
happen config (set_meter_provider p) s = record s { providers = with_meter p s.providers }
happen config (set_tracer_provider p) s = record s { providers = with_tracer p s.providers }
happen config (query now info) s = on_query config now info s

unfoldable pub happen_all : QueryTracingConfig → List Event → Telemetry → Telemetry
unfolding happen
happen_all config [] s = s
happen_all config (e ∷ es) s = happen_all config es (happen config e s)

abbrev pub start : Telemetry
start = record {
  providers = record { meter = 0; tracer = 0 };
  instruments = none;
  gauges = [];
  records = [];
}

-- The providers that are installed at the first query, if there is a query.
abbrev pub first_providers : Providers → List Event → Option Providers
first_providers p [] = none
first_providers p (set_meter_provider q ∷ es) = first_providers (with_meter q p) es
first_providers p (set_tracer_provider q ∷ es) = first_providers (with_tracer q p) es
first_providers p (query now info ∷ es) = some p

abbrev pub emitted_to : QueryTracingConfig → Providers → List Event → List (Providers × Emitted)
emitted_to config p [] = []
emitted_to config p (set_meter_provider q ∷ es) = emitted_to config p es
emitted_to config p (set_tracer_provider q ∷ es) = emitted_to config p es
emitted_to config p (query now info ∷ es) =
    (p, query_tracing_callback config now info) ∷ emitted_to config p es

-- What follows the first query.
settled :
    (config : QueryTracingConfig) (p : Providers) (es : List Event) (s : Telemetry)
    → s.instruments ≡ some p
    → ((happen_all config es s).gauges ≡ s.gauges)
      × ((happen_all config es s).records ≡ s.records ++ emitted_to config p es)
unfolding happen_all
settled config p [] s e = (refl, sym (append-nil s.records))
settled config p (set_meter_provider q ∷ es) s e =
    settled config p es (record s { providers = with_meter q s.providers }) e
settled config p (set_tracer_provider q ∷ es) s e =
    settled config p es (record s { providers = with_tracer q s.providers }) e
settled config p (query now info ∷ es) s e =
    let emitted : Providers × Emitted = (p, query_tracing_callback config now info) in
    let next : Telemetry = record s { records = s.records ++ emitted ∷ [] } in
    let (gauges, records) = settled config p es next e in
    let here : on_query config now info s ≡ next =
      ap
        (λ o.
          let (q, t) : Providers × Telemetry = get_or_init o s in
          record t { records = t.records ++ (q, query_tracing_callback config now info) ∷ [] })
        e in
    (
      ap (λ (t : Telemetry). (happen_all config es t).gauges) here ∙ gauges,
      ap (λ (t : Telemetry). (happen_all config es t).records) here
          ∙ records
          ∙ append_assoc s.records (emitted ∷ []) (emitted_to config p es),
    )

abbrev pub to_list : Option Providers → List ℕ
to_list none = []
to_list (some p) = p.meter ∷ []

abbrev pub emitted_by :
    QueryTracingConfig → Option Providers → List Event → List (Providers × Emitted)
emitted_by config none es = []
emitted_by config (some p) es = emitted_to config p es

emitted_by-set_meter :
    (config : QueryTracingConfig) (o : Option Providers) (q : ℕ) (es : List Event)
    → emitted_by config o (set_meter_provider q ∷ es) ≡ emitted_by config o es
emitted_by-set_meter config none q es = refl
emitted_by-set_meter config (some p) q es = refl

emitted_by-set_tracer :
    (config : QueryTracingConfig) (o : Option Providers) (q : ℕ) (es : List Event)
    → emitted_by config o (set_tracer_provider q ∷ es) ≡ emitted_by config o es
emitted_by-set_tracer config none q es = refl
emitted_by-set_tracer config (some p) q es = refl

unsettled :
    (config : QueryTracingConfig) (es : List Event) (p : Providers)
    → let s = happen_all config es (record start { providers = p }) in
      (s.gauges ≡ to_list (first_providers p es))
      × (s.records ≡ emitted_by config (first_providers p es) es)
unfolding happen_all
unsettled config [] p = (refl, refl)
unsettled config (set_meter_provider q ∷ es) p =
    let (gauges, records) = unsettled config es (with_meter q p) in
    (gauges, records ∙ sym (emitted_by-set_meter config (first_providers (with_meter q p) es) q es))
unsettled config (set_tracer_provider q ∷ es) p =
    let (gauges, records) = unsettled config es (with_tracer q p) in
    (
      gauges,
      records ∙ sym (emitted_by-set_tracer config (first_providers (with_tracer q p) es) q es),
    )
unsettled config (query now info ∷ es) p = settled config p es _ refl

-- Whatever providers of meters and of tracers are installed when, every query is emitted, in order, to the
-- two that were installed at the first one, and the gauge of the pool is registered once, at that meter
-- provider, or never if there is no query.
pub happen_all-first :
    (config : QueryTracingConfig) (es : List Event)
    → ((happen_all config es start).gauges ≡ to_list (first_providers start.providers es))
      × ((happen_all config es start).records
          ≡ emitted_by config (first_providers start.providers es) es)
happen_all-first config es = unsettled config es start.providers
