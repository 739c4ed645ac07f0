-- ===== src/Launcher/Pipeline/Answers/Endings.antt =====
-- What the layers of the application make of the way in which a future ends.
use modular_rust_platform.Base.{ℕ, String, Option, List, ◌≡◌, refl, ap, none}
use modular_rust_platform.Errors.Api.{Response, StatusCode}
use modular_rust_platform.Launcher.Responses.{Headers, PanicPayload, handle_panic}
use modular_rust_platform.Launcher.Metrics.{Pending}
use modular_rust_platform.Launcher.Pipeline.Stack.{
  Arrival, Run, Completion, replied, unwound, unfinished, Kept, Timed, Caught, Propagated,
}
use modular_rust_platform.Launcher.Pipeline.{
  with_security_headers, after_request, after_error, after_metrics, on_panic,
}

-- A completion without the headers.
pub data Ending : Type 0 where
  answered : Response → Ending
  panicked : PanicPayload → Ending
  late : Ending

abbrev pub ending : Completion → Ending
ending (replied r h) = answered r
ending (unwound p) = panicked p
ending unfinished = late

abbrev pub status_only : StatusCode → Response
status_only status = record { status = status; body = none; error = none }

-- A future that is late is answered with 408, and one that panics with the answer to a panic.
abbrev pub in_time : Ending → Ending
in_time (answered r) = answered r
in_time (panicked p) = panicked p
in_time late = answered (status_only 408)

abbrev pub calm : Ending → Ending
calm (answered r) = answered r
calm (panicked p) = answered (handle_panic p).0
calm late = late

module _ {S : Type 0} where
  pub Kept-ending : (names : List String) (x y : Run S) → Kept names x y → ending y.0 ≡ ending x.0
  Kept-ending names (replied r h, w) y (changed, e, same) = ap (λ (z : Run S). ending z.0) e
  Kept-ending names (unwound p, w) y e = ap (λ (z : Run S). ending z.0) e
  Kept-ending names (unfinished, w) y e = ap (λ (z : Run S). ending z.0) e

  pub Propagated-ending :
      (given : Option String) (x y : Run S) → Propagated given x y → ending y.0 ≡ ending x.0
  Propagated-ending given (replied r h, w) y (changed, e, same) = ap (λ (z : Run S). ending z.0) e
  Propagated-ending given (unwound p, w) y e = ap (λ (z : Run S). ending z.0) e
  Propagated-ending given (unfinished, w) y e = ap (λ (z : Run S). ending z.0) e

  pub Timed-ending : (x y : Run S) → Timed 408 x y → ending y.0 ≡ in_time (ending x.0)
  Timed-ending (replied r h, w) y e = ap (λ (z : Run S). ending z.0) e
  Timed-ending (unwound p, w) y e = ap (λ (z : Run S). ending z.0) e
  Timed-ending (unfinished, w) y (h, quiet, e) = ap (λ (z : Run S). ending z.0) e

  pub Caught-ending :
      (json : Headers) (x y : Run S) → Caught (on_panic json) x y → ending y.0 ≡ calm (ending x.0)
  unfolding on_panic
  Caught-ending json (replied r h, w) y e = ap (λ (z : Run S). ending z.0) e
  Caught-ending json (unwound p, w) y e = ap (λ (z : Run S). ending z.0) e
  Caught-ending json (unfinished, w) y e = ap (λ (z : Run S). ending z.0) e

  pub after_metrics-ending : (p : Pending) (x : Run S) → ending (after_metrics p x).0 ≡ ending x.0
  unfolding after_metrics
  after_metrics-ending p (replied r h, w) = refl
  after_metrics-ending p (unwound q, w) = refl
  after_metrics-ending p (unfinished, w) = refl

  pub after_request-ending :
      {E : Type 0} (trace_id : String) (a : Arrival E) (start : ℕ) (x : Run S)
      → ending (after_request trace_id a start x).0 ≡ ending x.0
  unfolding after_request
  after_request-ending trace_id a start (replied r h, w) = refl
  after_request-ending trace_id a start (unwound q, w) = refl
  after_request-ending trace_id a start (unfinished, w) = refl

  pub after_error-ending :
      {E : Type 0} (a : Arrival E) (x : Run S) → ending (after_error a x).0 ≡ ending x.0
  unfolding after_error
  after_error-ending a (replied r h, w) = refl
  after_error-ending a (unwound q, w) = refl
  after_error-ending a (unfinished, w) = refl

  pub with_security_headers-ending : (x : Run S) → ending (with_security_headers x).0 ≡ ending x.0
  unfolding with_security_headers
  with_security_headers-ending (replied r h, w) = refl
  with_security_headers-ending (unwound q, w) = refl
  with_security_headers-ending (unfinished, w) = refl
