-- ===== src/Launcher/Pipeline/Plain.antt =====
-- Layers that do what their documentation says and nothing else.
use modular_rust_platform.Base.{
  ℕ, String, Option, none, some, List, ◌≡◌, ◌≢◌, inl, inr, refl, str_eq, if◌then◌else◌, Bool-cases,
  eq_iff,
}
use modular_rust_platform.Base.Text.{Text}
use modular_rust_platform.Errors.Api.{Response}
use modular_rust_platform.Launcher.Responses.{Headers, PanicPayload}
use modular_rust_platform.Launcher.Cors.{HeaderValues}
use modular_rust_platform.Launcher.Pipeline.Stack.{
  Arrival, World, Run, Service, replied, unwound, unfinished, Kept, Timed, Caught, Propagated,
  propagated, own_headers, with_request_id, Tower,
}

abbrev pub any_text : HeaderValues
any_text = record { HeaderValue = Text; parse = λ t. some t; to_str = λ t. some t }

abbrev pub no_headers : Headers
no_headers name = none

abbrev pub status_only : ℕ → Response
status_only status = record { status = status; body = none; error = none }

module _ {S : Type 0} where
  abbrev pub cut : ℕ → Run S → Run S
  cut status (replied r h, w) = (replied r h, w)
  cut status (unwound p, w) = (unwound p, w)
  cut status (unfinished, w) = (replied (status_only status) no_headers, w)

  pub cut-Timed : (status : ℕ) (x : Run S) → Timed status x (cut status x)
  cut-Timed status (replied r h, w) = refl
  cut-Timed status (unwound p, w) = refl
  cut-Timed status (unfinished, w) = (no_headers, refl, refl)

  abbrev pub caught : (PanicPayload → World S → Run S) → Run S → Run S
  caught handler (replied r h, w) = (replied r h, w)
  caught handler (unwound p, w) = handler p w
  caught handler (unfinished, w) = (unfinished, w)

  pub caught-Caught :
      (handler : PanicPayload → World S → Run S) (x : Run S) → Caught handler x (caught handler x)
  caught-Caught handler (replied r h, w) = refl
  caught-Caught handler (unwound p, w) = refl
  caught-Caught handler (unfinished, w) = refl

  pub unchanged-Kept : (names : List String) (x : Run S) → Kept names x x
  unchanged-Kept names (replied r h, w) = (h, refl, λ name listed. refl)
  unchanged-Kept names (unwound p, w) = refl
  unchanged-Kept names (unfinished, w) = refl

  abbrev pub give : Option String → Run S → Run S
  give given (replied r h, w) = (
    replied r (λ name. if str_eq name "x-request-id" then propagated (h name) given else h name),
    w,
  )
  give given (unwound p, w) = (unwound p, w)
  give given (unfinished, w) = (unfinished, w)

  pub give-Propagated : (given : Option String) (x : Run S) → Propagated given x (give given x)
  give-Propagated given (replied r h, w) = (_, refl, refl)
  give-Propagated given (unwound p, w) = refl
  give-Propagated given (unfinished, w) = refl

module _ {E S : Type 0} where
  abbrev pub answer_options : Service E S → Service E S
  answer_options inner (a, w) =
      if str_eq a.request.method "OPTIONS"
      then (replied (status_only 200) no_headers, w)
      else inner (a, w)

  pub answer_options-preflight :
      (inner : Service E S) (a : Arrival E) (w : World S)
      → a.request.method ≡ "OPTIONS"
      → (r : Response) × (h : Headers) × (answer_options inner (a, w) ≡ (replied r h, w))
  answer_options-preflight inner a w e =
      (status_only 200, no_headers, rw ((eq_iff a.request.method "OPTIONS").1 e) refl)

  pub answer_options-Kept :
      (inner : Service E S) (a : Arrival E) (w : World S)
      → a.request.method ≢ "OPTIONS"
      → Kept own_headers (inner (a, w)) (answer_options inner (a, w))
  answer_options-Kept inner a w n = elim (Bool-cases (str_eq a.request.method "OPTIONS")) [
    | inl e ↦ absurd (n ((eq_iff a.request.method "OPTIONS").0 e))
    | inr e ↦ rw e (unchanged-Kept own_headers (inner (a, w)))
  ]

  abbrev pub plain : Tower any_text E S
  plain = record {
    json_headers = no_headers;
    route_layer = λ f inner. f inner;
    timeout = λ status seconds inner aw. cut status (inner aw);
    trace = λ inner. inner;
    catch_panic = λ handler inner aw. caught handler (inner aw);
    compression = λ inner. inner;
    set_request_id = λ inner (a, w). inner (with_request_id "made" a, w);
    propagate_request_id = λ inner (a, w). give a.request_id (inner (a, w));
    body_limit = λ bytes inner. inner;
    cors = λ policy. answer_options;
    json_lem = refl;
    route_layer_lem = λ f inner a w. inl refl;
    timeout_lem = λ status seconds inner a w. cut-Timed status (inner (a, w));
    trace_lem = λ inner a w. unchanged-Kept own_headers (inner (a, w));
    catch_panic_lem = λ handler inner a w. caught-Caught handler (inner (a, w));
    compression_lem = λ inner a w. unchanged-Kept own_headers (inner (a, w));
    set_request_id_lem =
        λ inner a w. ("made", unchanged-Kept own_headers (inner (with_request_id "made" a, w)));
    propagate_request_id_lem = λ inner a w. give-Propagated a.request_id (inner (a, w));
    body_limit_lem = λ bytes inner a w. inr (unchanged-Kept own_headers (inner (a, w)));
    preflight_lem = λ policy. answer_options-preflight;
    cors_lem = λ policy. answer_options-Kept;
  }
