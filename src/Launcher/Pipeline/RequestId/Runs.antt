-- ===== src/Launcher/Pipeline/RequestId/Runs.antt =====
-- What the layers of the application keep of the request id of a response.
use modular_rust_platform.Base.{
  ℕ, String, Option, none, ◌≡◌, ◌⊎◌, inl, inr, refl, sym, ap, ◌∙◌, subst,
}
use modular_rust_platform.Errors.Api.{StatusCode}
use modular_rust_platform.Launcher.Responses.{Headers, PanicPayload}
use modular_rust_platform.Launcher.Metrics.{Pending}
use modular_rust_platform.Launcher.Pipeline.Stack.{
  propagated, Arrival, World, Run, replied, unwound, unfinished, Kept, Timed, Caught, Propagated,
  own_headers,
}
use modular_rust_platform.Launcher.Pipeline.{
  with_security_headers, after_request, after_error, after_metrics, on_panic,
}
use modular_rust_platform.Launcher.Pipeline.Outer.{add_security_headers-request_id}

module _ {S : Type 0} where
  -- A response, if it is one, has no request id.
  abbrev pub Bare : Run S → Type 0
  Bare (replied r h, w) = h "x-request-id" ≡ none
  Bare (unwound p, w) = Unit
  Bare (unfinished, w) = Unit

  pub Timed-Bare : (status : StatusCode) (x y : Run S) → Timed status x y → Bare x → Bare y
  Timed-Bare status (replied r h, w) y e bare = subst Bare (sym e) bare
  Timed-Bare status (unwound p, w) y e bare = subst Bare (sym e) tt
  Timed-Bare status (unfinished, w) y (h, quiet, e) bare = subst Bare (sym e) quiet

  pub Kept-Bare : (x y : Run S) → Kept own_headers x y → Bare x → Bare y
  Kept-Bare (replied r h, w) y (changed, e, same) bare =
      subst Bare (sym e) (same "x-request-id" (inl refl) ∙ bare)
  Kept-Bare (unwound p, w) y e bare = subst Bare (sym e) tt
  Kept-Bare (unfinished, w) y e bare = subst Bare (sym e) tt

  pub Caught-Bare :
      (handler : PanicPayload → World S → Run S) (x y : Run S)
      → ((p : PanicPayload) (w : World S) → Bare (handler p w))
      → Caught handler x y
      → Bare x
      → Bare y
  Caught-Bare handler (replied r h, w) y answers e bare = subst Bare (sym e) bare
  Caught-Bare handler (unwound p, w) y answers e bare = subst Bare (sym e) (answers p w)
  Caught-Bare handler (unfinished, w) y answers e bare = subst Bare (sym e) tt

  pub after_metrics-Bare : (p : Pending) (x : Run S) → Bare x → Bare (after_metrics p x)
  unfolding after_metrics
  after_metrics-Bare p (replied r h, w) bare = bare
  after_metrics-Bare p (unwound q, w) bare = tt
  after_metrics-Bare p (unfinished, w) bare = tt

  pub after_request-Bare :
      {E : Type 0} (trace_id : String) (a : Arrival E) (start : ℕ) (x : Run S)
      → Bare x
      → Bare (after_request trace_id a start x)
  unfolding after_request
  after_request-Bare trace_id a start (replied r h, w) bare = bare
  after_request-Bare trace_id a start (unwound q, w) bare = tt
  after_request-Bare trace_id a start (unfinished, w) bare = tt

  pub after_error-Bare : {E : Type 0} (a : Arrival E) (x : Run S) → Bare x → Bare (after_error a x)
  unfolding after_error
  after_error-Bare a (replied r h, w) bare = bare
  after_error-Bare a (unwound q, w) bare = tt
  after_error-Bare a (unfinished, w) bare = tt

  pub on_panic-Bare :
      (json : Headers)
      → json "x-request-id" ≡ none
      → (p : PanicPayload) (w : World S) → Bare (on_panic json p w)
  unfolding on_panic
  on_panic-Bare json bare p w = bare

  -- The response has the id that the request came with, or is one that is made outside the propagation.
  abbrev pub Echo : Option String → Run S → Type 0
  Echo given (replied r h, w) =
      (h "x-request-id" ≡ given)
      ⊎ ((h "x-request-id" ≡ none) × ((r.status ≡ 401) ⊎ (r.status ≡ 403) ⊎ (r.status ≡ 413)))
  Echo given (unwound p, w) = Unit
  Echo given (unfinished, w) = Unit

  pub Propagated-Echo :
      (given : Option String) (x y : Run S) → Propagated given x y → Bare x → Echo given y
  Propagated-Echo given (replied r h, w) y (changed, e, value) bare =
      subst (Echo given) (sym e) (inl (value ∙ ap (λ o. propagated o given) bare))
  Propagated-Echo given (unwound p, w) y e bare = subst (Echo given) (sym e) tt
  Propagated-Echo given (unfinished, w) y e bare = subst (Echo given) (sym e) tt

  pub Kept-Echo :
      (given : Option String) (x y : Run S) → Kept own_headers x y → Echo given x → Echo given y
  Kept-Echo given (replied r h, w) y (changed, e, same) (inl echo) =
      subst (Echo given) (sym e) (inl (same "x-request-id" (inl refl) ∙ echo))
  Kept-Echo given (replied r h, w) y (changed, e, same) (inr (bare, status)) =
      subst (Echo given) (sym e) (inr (same "x-request-id" (inl refl) ∙ bare, status))
  Kept-Echo given (unwound p, w) y e echo = subst (Echo given) (sym e) tt
  Kept-Echo given (unfinished, w) y e echo = subst (Echo given) (sym e) tt

  pub with_security_headers-Echo :
      (given : Option String) (x : Run S) → Echo given x → Echo given (with_security_headers x)
  unfolding with_security_headers
  with_security_headers-Echo given (replied r h, w) (inl echo) =
      inl (add_security_headers-request_id h ∙ echo)
  with_security_headers-Echo given (replied r h, w) (inr (bare, status)) =
      inr (add_security_headers-request_id h ∙ bare, status)
  with_security_headers-Echo given (unwound p, w) echo = tt
  with_security_headers-Echo given (unfinished, w) echo = tt
