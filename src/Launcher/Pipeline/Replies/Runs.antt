-- ===== src/Launcher/Pipeline/Replies/Runs.antt =====
-- What the layers of the application keep of a run: that it ends, and that it ends with a reply.
use modular_rust_platform.Base.{ℕ, String, Option, List, ◌≡◌, ◌⊎◌, inl, inr, refl, ◌∙◌}
use modular_rust_platform.Errors.Api.{Response, StatusCode}
use modular_rust_platform.Launcher.Responses.{Headers, PanicPayload}
use modular_rust_platform.Launcher.Pipeline.Stack.{
  Propagated, Arrival, World, Run, replied, unwound, unfinished, Kept, Timed, Caught,
}
use modular_rust_platform.Launcher.Pipeline.{after_request, after_error, on_panic}

module _ {S : Type 0} where
  abbrev pub Replied : Run S → Type 0
  Replied run = (r : Response) × (h : Headers) × (w : World S) × (run ≡ (replied r h, w))

  abbrev pub Finished : Run S → Type 0
  Finished run = Replied run ⊎ ((p : PanicPayload) × (w : World S) × (run ≡ (unwound p, w)))

  pub Timed-Finished : (status : StatusCode) (x y : Run S) → Timed status x y → Finished y
  Timed-Finished status (replied r h, w) y e = inl (r, h, w, e)
  Timed-Finished status (unwound p, w) y e = inr (p, w, e)
  Timed-Finished status (unfinished, w) y (h, quiet, e) = inl (_, h, w, e)

  pub Kept-Replied : (names : List String) (x y : Run S) → Kept names x y → Replied x → Replied y
  Kept-Replied names (replied r h, w) y (changed, e, same) there = (r, changed, w, e)
  Kept-Replied names (unwound p, w) y e (r, h, v, there) = absurd (cc)
  Kept-Replied names (unfinished, w) y e (r, h, v, there) = absurd (cc)

  pub Propagated-Replied :
      (given : Option String) (x y : Run S) → Propagated given x y → Replied x → Replied y
  Propagated-Replied given (replied r h, w) y (changed, e, same) there = (r, changed, w, e)
  Propagated-Replied given (unwound p, w) y e (r, h, v, there) = absurd (cc)
  Propagated-Replied given (unfinished, w) y e (r, h, v, there) = absurd (cc)

  pub Kept-Finished : (names : List String) (x y : Run S) → Kept names x y → Finished x → Finished y
  Kept-Finished names (replied r h, w) y (changed, e, same) there = inl (r, changed, w, e)
  Kept-Finished names (unwound p, w) y e there = inr (p, w, e)
  Kept-Finished names (unfinished, w) y e (inl (r, h, v, there)) = absurd (cc)
  Kept-Finished names (unfinished, w) y e (inr (p, v, there)) = absurd (cc)

  pub Caught-Replied :
      (handler : PanicPayload → World S → Run S) (x y : Run S)
      → ((p : PanicPayload) (w : World S) → Replied (handler p w))
      → Caught handler x y
      → Finished x
      → Replied y
  Caught-Replied handler (replied r h, w) y answers e there = (r, h, w, e)
  Caught-Replied handler (unwound p, w) y answers e there =
      let (r, h, v, f) = answers p w in (r, h, v, e ∙ f)
  Caught-Replied handler (unfinished, w) y answers e (inl (r, h, v, there)) = absurd (cc)
  Caught-Replied handler (unfinished, w) y answers e (inr (p, v, there)) = absurd (cc)

  pub on_panic-Replied :
      (json : Headers) (p : PanicPayload) (w : World S) → Replied (on_panic json p w)
  unfolding on_panic
  on_panic-Replied json p w = (_, json, _, refl)

  pub after_request-Finished :
      {E : Type 0} (trace_id : String) (a : Arrival E) (start : ℕ) (x : Run S)
      → Finished x
      → Finished (after_request trace_id a start x)
  unfolding after_request
  after_request-Finished trace_id a start (replied r h, w) there = inl (r, h, _, refl)
  after_request-Finished trace_id a start (unwound p, w) there = there
  after_request-Finished trace_id a start (unfinished, w) there = there

  pub after_error-Finished :
      {E : Type 0} (a : Arrival E) (x : Run S) → Finished x → Finished (after_error a x)
  unfolding after_error
  after_error-Finished a (replied r h, w) there = inl (r, h, _, refl)
  after_error-Finished a (unwound p, w) there = there
  after_error-Finished a (unfinished, w) there = there
