-- ===== src/Launcher/Observability/Guard.antt =====
-- What the guard of the providers holds, and that none outlives it.
use modular_rust_platform.Base.{
  String, true, List, [], Result, ok, err, ◌≡◌, refl, ◌⊎◌, ◌↔◌, inl, inr, arith, In, err-ne-ok,
  Bool-cases, Result-cases,
}
use modular_rust_platform.Launcher.Observability.{
  Kind, tracer, meter, logger, Failure, shut_down, OtelGuard, holds, step_then, shutdown,
  drop_guard, drop_step,
}

step_then-ok :
    (run : Kind → Result (Unit {0}) String) (fail : Kind → String → Failure) (guard : OtelGuard)
    (kind : Kind) (rest : List Kind × Result (Unit {0}) Failure)
    → ((step_then run fail guard kind rest).1 ≡ ok tt)
      ↔ ((holds guard kind ≡ true → run kind ≡ ok tt) × (rest.1 ≡ ok tt))
unfolding step_then
step_then-ok run fail guard kind rest = elim (Bool-cases (holds guard kind)) [
  | inl held ↦ elim (Result-cases (run kind)) [
    | inl (_, r) ↦ rw (held, step_then) (rw (r, step_then) ((λ e. ((λ h. refl), e)), λ h. h.1))
    | inr (cause, r) ↦
        rw (held, step_then) (rw (r, step_then) ((λ e. cc), λ h. absurd (clash cause (h.0 refl))))
  ]
  | inr free ↦ rw (free, step_then) ((λ e. ((λ h. cc), e)), λ h. h.1)
]
  where
    done : Result (Unit {0}) String
    done = ok tt

    clash : (cause : String) → err cause ≡ done → ⊥
    clash cause e = cc

step_then-In :
    (run : Kind → Result (Unit {0}) String) (fail : Kind → String → Failure) (guard : OtelGuard)
    (kind k : Kind) (rest : List Kind × Result (Unit {0}) Failure)
    → In k (step_then run fail guard kind rest).0
    → (k ≡ kind) × (holds guard kind ≡ true) ⊎ In k rest.0
unfolding step_then
step_then-In run fail guard kind k rest h = elim (Bool-cases (holds guard kind)) [
  | inl held ↦ elim (Result-cases (run kind)) [
    | inl (_, r) ↦ ground arith
    | inr (cause, r) ↦ ground arith
  ]
  | inr free ↦ inr (rw (free, step_then) at h)
]

drop_step-In :
    (guard : OtelGuard) (kind k : Kind) (rest : List Kind)
    → In k (drop_step guard kind rest) ↔ ((k ≡ kind) × (holds guard kind ≡ true) ⊎ In k rest)
unfolding drop_step
drop_step-In guard kind k rest = ground arith

-- `shutdown` succeeds exactly if the shutdown of each provider that the guard holds does.
pub shutdown_iff :
    (run : Kind → Result (Unit {0}) String) (guard : OtelGuard)
    → ((shutdown run guard).1 ≡ ok tt)
      ↔ ((kind : Kind) → holds guard kind ≡ true → run kind ≡ ok tt)
unfolding shutdown
shutdown_iff run guard =
    let last = step_then run shut_down guard logger ([], ok tt) in
    let rest = step_then run shut_down guard meter last in
    let at_tracer = step_then-ok run shut_down guard tracer rest in
    let at_meter = step_then-ok run shut_down guard meter last in
    let at_logger = step_then-ok run shut_down guard logger ([], ok tt) in
    (
      (λ e kind. elim kind as (λ k. holds guard k ≡ true → run k ≡ ok tt) [
        | tracer ↦ (at_tracer.0 e).0
        | meter ↦ (at_meter.0 (at_tracer.0 e).1).0
        | logger ↦ (at_logger.0 (at_meter.0 (at_tracer.0 e).1).1).0
      ]),
      λ h. at_tracer.1 (h tracer, at_meter.1 (h meter, at_logger.1 (h logger, refl))),
    )

step_then-held :
    (run : Kind → Result (Unit {0}) String) (guard : OtelGuard) (kind : Kind)
    → In kind (shutdown run guard).0
    → holds guard kind ≡ true
unfolding shutdown
step_then-held run guard kind h =
    let last = step_then run shut_down guard logger ([], ok tt) in
    let rest = step_then run shut_down guard meter last in
    elim (step_then-In run shut_down guard tracer kind rest h) [
      | inl (same, held) ↦ rw same held
      | inr later ↦ elim (step_then-In run shut_down guard meter kind last later) [
        | inl (same, held) ↦ rw same held
        | inr end ↦ elim (step_then-In run shut_down guard logger kind ([], ok tt) end) [
          | inl (same, held) ↦ rw same held
          | inr none_left ↦ absurd none_left
        ]
      ]
    ]

step_then-kept :
    (run : Kind → Result (Unit {0}) String) (fail : Kind → String → Failure) (guard : OtelGuard)
    (kind k : Kind) (rest : List Kind × Result (Unit {0}) Failure)
    → (step_then run fail guard kind rest).1 ≡ ok tt
    → (k ≡ kind) × (holds guard kind ≡ true) ⊎ In k rest.0
    → In k (step_then run fail guard kind rest).0
unfolding step_then
step_then-kept run fail guard kind k rest e h = elim (Bool-cases (holds guard kind)) [
  | inl held ↦ elim (Result-cases (run kind)) [
    | inl (_, r) ↦ ground arith
    | inr (cause, r) ↦ absurd (err-ne-ok (rw (r, step_then) at (rw (held, step_then) at e)))
  ]
  | inr free ↦ ground arith
]

-- A `shutdown` that succeeds has asked each provider that the guard holds, and no other.
pub shutdown-asked :
    (run : Kind → Result (Unit {0}) String) (guard : OtelGuard) (kind : Kind)
    → (shutdown run guard).1 ≡ ok tt
    → In kind (shutdown run guard).0 ↔ (holds guard kind ≡ true)
unfolding shutdown
shutdown-asked run guard kind e = (step_then-held run guard kind, kept kind)
  where
    last : List Kind × Result (Unit {0}) Failure
    last = step_then run shut_down guard logger ([], ok tt)

    rest : List Kind × Result (Unit {0}) Failure
    rest = step_then run shut_down guard meter last

    rest-ok : rest.1 ≡ ok tt
    rest-ok = ((step_then-ok run shut_down guard tracer rest).0 e).1

    last-ok : last.1 ≡ ok tt
    last-ok = ((step_then-ok run shut_down guard meter last).0 rest-ok).1

    kept : (k : Kind) → holds guard k ≡ true → In k (shutdown run guard).0
    kept tracer held = step_then-kept run shut_down guard tracer tracer rest e (inl (refl, held))
    kept meter held =
        step_then-kept run shut_down guard tracer meter rest e
          (inr (step_then-kept run shut_down guard meter meter last rest-ok (inl (refl, held))))
    kept logger held = step_then-kept run shut_down guard tracer logger rest e (
        inr (
          step_then-kept run shut_down guard meter logger last rest-ok (
            inr (
              step_then-kept run shut_down guard logger logger ([], ok tt) last-ok
                (inl (refl, held))))))

pub drop_guard-In :
    (guard : OtelGuard) (kind : Kind) → In kind (drop_guard guard) ↔ (holds guard kind ≡ true)
unfolding drop_guard
drop_guard-In guard kind =
    let last = drop_step-In guard logger kind [] in
    let middle = drop_step-In guard meter kind (drop_step guard logger []) in
    let first =
      drop_step-In guard tracer kind (drop_step guard meter (drop_step guard logger [])) in
    (
      (λ h. elim (first.0 h) [
        | inl (same, held) ↦ rw same held
        | inr later ↦ elim (middle.0 later) [
          | inl (same, held) ↦ rw same held
          | inr end ↦ elim (last.0 end) [
            | inl (same, held) ↦ rw same held
            | inr none_left ↦ absurd none_left
          ]
        ]
      ]),
      kept kind,
    )
  where
    kept : (k : Kind) → holds guard k ≡ true → In k (drop_guard guard)
    kept tracer held =
        (drop_step-In guard tracer tracer (drop_step guard meter (drop_step guard logger []))).1
          (inl (refl, held))
    kept meter held =
        (drop_step-In guard tracer meter (drop_step guard meter (drop_step guard logger []))).1
          (inr ((drop_step-In guard meter meter (drop_step guard logger [])).1 (inl (refl, held))))
    kept logger held =
        (drop_step-In guard tracer logger (drop_step guard meter (drop_step guard logger []))).1 (
          inr (
            (drop_step-In guard meter logger (drop_step guard logger [])).1
              (inr ((drop_step-In guard logger logger []).1 (inl (refl, held))))))

-- Whatever fails, the providers that are shut down by `shutdown` or by the drop of the guard behind it
-- are exactly those that the guard held.
pub shutdown-drop_guard :
    (run : Kind → Result (Unit {0}) String) (guard : OtelGuard) (kind : Kind)
    → (In kind (shutdown run guard).0 ⊎ In kind (drop_guard guard)) ↔ (holds guard kind ≡ true)
shutdown-drop_guard run guard kind = (
  (λ h. elim h [
    | inl early ↦ step_then-held run guard kind early
    | inr late ↦ (drop_guard-In guard kind).0 late
  ]),
  λ held. inr ((drop_guard-In guard kind).1 held),
)
