-- ===== src/Security/Layer/Requests.antt =====
-- What the middleware does with a request, and which rule decides.
use modular_rust_platform.Base.{
  String, false, Option, none, some, List, [], ◌∷◌, ◌++◌, ◌≡◌, refl, ap, sym, ◌∙◌, ◌⊎◌, inl, inr,
  Bool-cases, All,
}
use modular_rust_platform.Base.Text.{Text}
use modular_rust_platform.Errors.Api.{Response}
use modular_rust_platform.Errors.Api.Disclosure.{unauthorized-status, forbidden-status}
use modular_rust_platform.Security.Jwt.{Claims, JsonWebToken, new}
use modular_rust_platform.Security.Builder.{Matchit, Effect, permit_all, Rule, Chain}
use modular_rust_platform.Security.Token.{extract_token}
use modular_rust_platform.Security.Layer.{
  Outcome, allow, unauthorized, forbidden, Extensions, Request, applies, select_effect,
  apply_effect, check, serve, call,
}
use modular_rust_platform.Security.Layer.Applies.{Applies, applies_iff, not_Applies}
use modular_rust_platform.Security.Layer.Outcomes.{
  Satisfies, Credential, apply_effect-granted, apply_effect-unauthorized, apply_effect-forbidden,
  apply_effect-extensions,
}

module _ (lib : Matchit) {E : Type 0} where
  -- The effect of a chain for a method and a path, as the builder's documentation gives it: that of the
  -- first rule that applies, else that of `any_request`.
  abbrev pub Decides : List (Rule lib E) → Effect E → String → String → Effect E → Type 0
  Decides rules any_request method path effect =
      ((before : List (Rule lib E)) × (rule : Rule lib E) × (after : List (Rule lib E)) × (rules
          ≡ before ++ rule ∷ after)
        × All (λ r. ¬ Applies lib r method path) before
        × Applies lib rule method path
        × (effect ≡ rule.effect))
      ⊎ (All (λ r. ¬ Applies lib r method path) rules × (effect ≡ any_request))

  -- The selected effect is that of the first rule that lists the method, or has no list of methods, and
  -- whose pattern matches the path; where there is none, it is that of `any_request`.
  pub select_effect-Decides :
      (rules : List (Rule lib E)) (any_request : Effect E) (method path : String)
      → Decides rules any_request method path (select_effect lib rules any_request method path)
  unfolding select_effect
  select_effect-Decides [] any_request method path = inr (tt, refl)
  select_effect-Decides (rule ∷ rules) any_request method path =
      elim (Bool-cases (applies lib rule method path)) [
        | inl here ↦ inl (
          [],
          rule,
          rules,
          refl,
          tt,
          (applies_iff lib rule method path).0 here,
          rw (here, select_effect) refl,
        )
        | inr there ↦ later there (select_effect-Decides rules any_request method path)
      ]
    where
      later :
          applies lib rule method path ≡ false
          → Decides rules any_request method path (select_effect lib rules any_request method path)
          → Decides
              (rule ∷ rules)
              any_request
              method
              path
              (select_effect lib (rule ∷ rules) any_request method path)
      later there (inl (before, found, after, e, quiet, applying, same)) = inl (
        rule ∷ before,
        found,
        after,
        ap (rule ∷◌) e,
        (not_Applies lib rule method path there, quiet),
        applying,
        rw (there, select_effect) same,
      )
      later there (inr (quiet, same)) =
          inr ((not_Applies lib rule method path there, quiet), rw (there, select_effect) same)

  module _ (jwt : JsonWebToken E) (chain : Chain lib E) (inner : Request E → Response)
      (req : Request E) where
    -- The effect, and the token, that a request is checked with.
    abbrev pub effect_for : Effect E
    effect_for = select_effect lib chain.rules chain.any_request req.method req.path

    abbrev pub token_for : Option Text
    token_for = extract_token req.headers chain.cookie_name

    abbrev pub verdict : Outcome × Extensions E
    verdict =
        apply_effect jwt effect_for token_for chain.jwt_config chain.claims_validator req.extensions

    abbrev seen_extensions : Option (Request E) → Extensions E
    seen_extensions none = none
    seen_extensions (some q) = q.extensions

    none≢some : {q : Request E} → none ≡ some q → ⊥
    none≢some h = cc

    -- The inner service sees the request exactly if the check allows it, with its extensions.
    serve-reached :
        (changed : Request E) (outcome : Outcome)
        → ((serve lib jwt inner changed outcome).reached ≡ some changed) × (outcome ≡ allow)
          ⊎ ((serve lib jwt inner changed outcome).reached ≡ none)
            × (outcome ≡ unauthorized)
            × ((serve lib jwt inner changed outcome).counted ≡ some (changed.method, 401))
            × ((serve lib jwt inner changed outcome).response.status ≡ 401)
          ⊎ ((serve lib jwt inner changed outcome).reached ≡ none)
            × (outcome ≡ forbidden)
            × ((serve lib jwt inner changed outcome).counted ≡ some (changed.method, 403))
            × ((serve lib jwt inner changed outcome).response.status ≡ 403)
    unfolding serve
    serve-reached changed allow = inl (refl, refl)
    serve-reached changed unauthorized = inr (inl (refl, refl, refl, unauthorized-status))
    serve-reached changed forbidden = inr (inr (refl, refl, refl, forbidden-status))

    -- The credential that the request presents for this chain.
    abbrev pub Presents : Claims E → Type 0
    Presents claims = Credential jwt chain.jwt_config chain.claims_validator token_for claims

    -- A request that reaches the inner service is for a rule that permits all, or presents a credential
    -- for claims that satisfy the rule, and these are its security context.
    pub call-reached :
        (seen : Request E)
        → (call lib jwt chain inner req).reached ≡ some seen
        → (effect_for ≡ permit_all)
          ⊎ ((claims : Claims E) × Presents claims
              × Satisfies effect_for claims
              × (seen.extensions ≡ some (new claims)))
    unfolding call check
    call-reached seen e = elim (serve-reached (record req { extensions = verdict.1 }) verdict.0) [
      | inl (r, allowed) ↦
          let kept : verdict.1 ≡ seen.extensions = ap seen_extensions (sym r ∙ e) in
          elim (apply_effect-granted jwt chain.jwt_config chain.claims_validator effect_for
            token_for req.extensions allowed) [
              | inl open_rule ↦ inl open_rule
              | inr (claims, c, s, left) ↦ inr (claims, c, s, sym kept ∙ left)
            ]
      | inr (inl (r, refused, counted, status)) ↦ absurd (none≢some (sym r ∙ e))
      | inr (inr (r, refused, counted, status)) ↦ absurd (none≢some (sym r ∙ e))
    ]

    -- The security context that the inner service sees is the one that came with the request or that of
    -- a credential which the request presents, also under a rule that permits all.
    pub call-extensions :
        (seen : Request E)
        → (call lib jwt chain inner req).reached ≡ some seen
        → (seen.extensions ≡ req.extensions)
          ⊎ ((claims : Claims E) × Presents claims × (seen.extensions ≡ some (new claims)))
    unfolding call check
    call-extensions seen e =
        elim (serve-reached (record req { extensions = verdict.1 }) verdict.0) [
          | inl (r, allowed) ↦
              let kept : verdict.1 ≡ seen.extensions = ap seen_extensions (sym r ∙ e) in
              elim (apply_effect-extensions jwt chain.jwt_config chain.claims_validator effect_for
                token_for req.extensions) [
                  | inl same ↦ inl (sym kept ∙ same)
                  | inr (claims, c, left) ↦ inr (claims, c, sym kept ∙ left)
                ]
          | inr (inl (r, refused, counted, status)) ↦ absurd (none≢some (sym r ∙ e))
          | inr (inr (r, refused, counted, status)) ↦ absurd (none≢some (sym r ∙ e))
        ]

    -- A request that does not reach the inner service is answered with 401, and then it presents no
    -- credential, or with 403, and then the claims of its credential do not satisfy the rule; it is counted
    -- with its method and that status.
    pub call-refused :
        (call lib jwt chain inner req).reached ≡ none
        → (((call lib jwt chain inner req).response.status ≡ 401)
            × ((call lib jwt chain inner req).counted ≡ some (req.method, 401))
            × ¬ ((claims : Claims E) × Presents claims))
          ⊎ (((call lib jwt chain inner req).response.status ≡ 403)
              × ((call lib jwt chain inner req).counted ≡ some (req.method, 403))
              × ((claims : Claims E) × Presents claims × ¬ Satisfies effect_for claims))
    unfolding call check
    call-refused e = elim (serve-reached (record req { extensions = verdict.1 }) verdict.0) [
      | inl (r, allowed) ↦ absurd (none≢some (sym e ∙ r))
      | inr (inl (r, refused, counted, status)) ↦ inl (
        status,
        counted,
        λ (claims, c).
            apply_effect-unauthorized jwt chain.jwt_config chain.claims_validator effect_for
              token_for req.extensions refused claims c,
      )
      | inr (inr (r, refused, counted, status)) ↦ inr (
        status,
        counted,
        apply_effect-forbidden jwt chain.jwt_config chain.claims_validator effect_for token_for
            req.extensions refused,
      )
    ]
