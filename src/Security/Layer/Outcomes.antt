-- ===== src/Security/Layer/Outcomes.antt =====
-- When a request is let through, and with which security context.
use modular_rust_platform.Base.{
  true, false, Option, none, some, ◌≡◌, refl, ap, ◌∙◌, ◌⊎◌, ◌↔◌, inl, inr, ok, arith, Bool-cases,
  Option-cases, Result-cases,
}
use modular_rust_platform.Base.Text.{Text}
use modular_rust_platform.Security.Jwt.{Claims, JwtConfig, JsonWebToken, decode_jwt, new}
use modular_rust_platform.Security.Builder.{
  Effect, permit_all, authenticated, has_role, ClaimsValidator,
}
use modular_rust_platform.Security.Layer.{
  allow, unauthorized, forbidden, Extensions, accepted, decoded, apply_effect,
}

-- What a rule asks of the claims.
abbrev pub Satisfies : {E : Type 0} → Effect E → Claims E → Type 0
Satisfies permit_all claims = Unit
Satisfies authenticated claims = Unit
Satisfies (has_role predicate) claims = predicate claims.ext ≡ true

module _ {E : Type 0} (jwt : JsonWebToken E) (config : JwtConfig)
    (validator : Option (ClaimsValidator E)) where
  -- The token was presented, decodes to the claims, and the validator accepts them.
  abbrev pub Credential : Option Text → Claims E → Type 0
  Credential token claims =
      (t : Text) × (token ≡ some t)
      × (decode_jwt jwt t config ≡ ok claims)
      × (accepted validator claims ≡ true)

  decoded-Credential :
      (token : Option Text) (claims : Claims E)
      → decoded jwt config token ≡ some claims
      → accepted validator claims ≡ true
      → Credential token claims
  unfolding decoded
  decoded-Credential none claims e a = cc
  decoded-Credential (some t) claims e a = elim (Result-cases (decode_jwt jwt t config)) [
    | inl (found, d) ↦ let same : found ≡ claims = ground arith in (t, refl, d ∙ ap ok same, a)
    | inr (failure, d) ↦ ground arith
  ]

  decoded_of :
      (token : Option Text) (claims : Claims E)
      → Credential token claims
      → decoded jwt config token ≡ some claims
  unfolding decoded
  decoded_of token claims (t, presented, d, a) = rw (presented, decoded) (rw (d, decoded))

  -- An effect that claims satisfy, with those claims decoded and accepted.
  granted-allow :
      (effect : Effect E) (token : Option Text) (extensions : Extensions E) (claims : Claims E)
      → Credential token claims
      → Satisfies effect claims
      → (apply_effect jwt effect token config validator extensions).0 ≡ allow
  unfolding apply_effect
  granted-allow permit_all token extensions claims c s =
      rw (decoded_of token claims c, apply_effect) refl
  granted-allow authenticated token extensions claims (t, p, d, a) s =
      rw (decoded_of token claims (t, p, d, a), apply_effect) (rw (a, apply_effect) refl)
  granted-allow (has_role predicate) token extensions claims (t, p, d, a) s =
      rw (decoded_of token claims (t, p, d, a), apply_effect)
        (rw (a, apply_effect) (rw (s, apply_effect) refl))

  permit_all-allow :
      (token : Option Text) (extensions : Extensions E)
      → (apply_effect jwt permit_all token config validator extensions).0 ≡ allow
  unfolding apply_effect
  permit_all-allow token extensions = elim (Option-cases (decoded jwt config token)) [
    | inl d ↦ rw (d, apply_effect) refl
    | inr (claims, d) ↦ rw (d, apply_effect) refl
  ]

  -- What a check that leads to `allow` has found, and what it leaves in the request.
  pub apply_effect-granted :
      (effect : Effect E) (token : Option Text) (extensions : Extensions E)
      → (apply_effect jwt effect token config validator extensions).0 ≡ allow
      → (effect ≡ permit_all)
        ⊎ ((claims : Claims E) × Credential token claims
            × Satisfies effect claims
            × ((apply_effect jwt effect token config validator extensions).1 ≡ some (new claims)))
  unfolding apply_effect new
  apply_effect-granted permit_all token extensions e = inl refl
  apply_effect-granted authenticated token extensions e =
      elim (Option-cases (decoded jwt config token)) [
        | inl d ↦ ground arith
        | inr (claims, d) ↦ elim (Bool-cases (accepted validator claims)) [
          | inl a ↦ inr (
            claims,
            decoded-Credential token claims d a,
            tt,
            rw (d, apply_effect) (rw (a, apply_effect) refl),
          )
          | inr a ↦ ground arith
        ]
      ]
  apply_effect-granted (has_role predicate) token extensions e =
      elim (Option-cases (decoded jwt config token)) [
        | inl d ↦ ground arith
        | inr (claims, d) ↦ elim (Bool-cases (accepted validator claims)) [
          | inl a ↦ elim (Bool-cases (predicate claims.ext)) [
            | inl r ↦ inr (
              claims,
              decoded-Credential token claims d a,
              r,
              rw (d, apply_effect) (rw (a, apply_effect) (rw (r, apply_effect) refl)),
            )
            | inr r ↦ ground arith
          ]
          | inr a ↦ ground arith
        ]
      ]

  -- A request is let through exactly if its rule permits all, or its token is a credential for claims
  -- that satisfy the rule.
  pub apply_effect-allow :
      (effect : Effect E) (token : Option Text) (extensions : Extensions E)
      → ((apply_effect jwt effect token config validator extensions).0 ≡ allow) ↔ (
          (effect ≡ permit_all)
          ⊎ ((claims : Claims E) × Credential token claims × Satisfies effect claims))
  apply_effect-allow effect token extensions = (
    (λ e. elim (apply_effect-granted effect token extensions e) [
      | inl p ↦ inl p
      | inr (claims, c, s, left) ↦ inr (claims, c, s)
    ]),
    λ why. elim why [
      | inl p ↦ rw p (permit_all-allow token extensions)
      | inr (claims, c, s) ↦ granted-allow effect token extensions claims c s
    ],
  )

  -- A security context that the check puts into a request is that of a credential, whatever the rule.
  pub apply_effect-extensions :
      (effect : Effect E) (token : Option Text) (extensions : Extensions E)
      → ((apply_effect jwt effect token config validator extensions).1 ≡ extensions)
        ⊎ ((claims : Claims E) × Credential token claims
            × ((apply_effect jwt effect token config validator extensions).1 ≡ some (new claims)))
  unfolding apply_effect new
  apply_effect-extensions effect token extensions = elim (Option-cases (decoded jwt config token)) [
    | inl d ↦ inl (absent effect d)
    | inr (claims, d) ↦ elim (Bool-cases (accepted validator claims)) [
      | inl a ↦ present effect claims d a
      | inr a ↦ inl (refused effect claims d a)
    ]
  ]
    where
      absent :
          (f : Effect E)
          → decoded jwt config token ≡ none
          → (apply_effect jwt f token config validator extensions).1 ≡ extensions
      absent permit_all d = rw (d, apply_effect) refl
      absent authenticated d = rw (d, apply_effect) refl
      absent (has_role predicate) d = rw (d, apply_effect) refl

      refused :
          (f : Effect E) (claims : Claims E)
          → decoded jwt config token ≡ some claims
          → accepted validator claims ≡ false
          → (apply_effect jwt f token config validator extensions).1 ≡ extensions
      refused permit_all claims d a = rw (d, apply_effect) (rw (a, apply_effect) refl)
      refused authenticated claims d a = rw (d, apply_effect) (rw (a, apply_effect) refl)
      refused (has_role predicate) claims d a = rw (d, apply_effect) (rw (a, apply_effect) refl)

      present :
          (f : Effect E) (claims : Claims E)
          → decoded jwt config token ≡ some claims
          → accepted validator claims ≡ true
          → ((apply_effect jwt f token config validator extensions).1 ≡ extensions)
            ⊎ ((found : Claims E) × Credential token found
                × ((apply_effect jwt f token config validator extensions).1 ≡ some (new found)))
      present permit_all claims d a = inr (
        claims,
        decoded-Credential token claims d a,
        rw (d, apply_effect) (rw (a, apply_effect) refl),
      )
      present authenticated claims d a = inr (
        claims,
        decoded-Credential token claims d a,
        rw (d, apply_effect) (rw (a, apply_effect) refl),
      )
      present (has_role predicate) claims d a = elim (Bool-cases (predicate claims.ext)) [
        | inl r ↦ inr (
          claims,
          decoded-Credential token claims d a,
          rw (d, apply_effect) (rw (a, apply_effect) (rw (r, apply_effect) refl)),
        )
        | inr r ↦ inl (rw (d, apply_effect) (rw (a, apply_effect) (rw (r, apply_effect) refl)))
      ]

  -- A request without a credential is the only one that is refused as unauthorized.
  pub apply_effect-unauthorized :
      (effect : Effect E) (token : Option Text) (extensions : Extensions E)
      → (apply_effect jwt effect token config validator extensions).0 ≡ unauthorized
      → (claims : Claims E) → ¬ Credential token claims
  unfolding apply_effect
  apply_effect-unauthorized permit_all token extensions e claims (t, p, d, a) =
      ground (arith, permit_all-allow token extensions)
  apply_effect-unauthorized authenticated token extensions e claims (t, p, d, a) =
      ground (arith, decoded_of token claims (t, p, d, a))
  apply_effect-unauthorized (has_role predicate) token extensions e claims (t, p, d, a) =
      ground (arith, decoded_of token claims (t, p, d, a))

  -- A request that is refused as forbidden has a credential for claims that do not satisfy the rule.
  pub apply_effect-forbidden :
      (effect : Effect E) (token : Option Text) (extensions : Extensions E)
      → (apply_effect jwt effect token config validator extensions).0 ≡ forbidden
      → (claims : Claims E) × Credential token claims × ¬ Satisfies effect claims
  unfolding apply_effect
  apply_effect-forbidden permit_all token extensions e =
      ground (arith, permit_all-allow token extensions)
  apply_effect-forbidden authenticated token extensions e =
      elim (Option-cases (decoded jwt config token)) [
        | inl d ↦ ground arith
        | inr (claims, d) ↦ ground arith
      ]
  apply_effect-forbidden (has_role predicate) token extensions e =
      elim (Option-cases (decoded jwt config token)) [
        | inl d ↦ ground arith
        | inr (claims, d) ↦ elim (Bool-cases (accepted validator claims)) [
          | inl a ↦ elim (Bool-cases (predicate claims.ext)) [
            | inl r ↦ ground arith
            | inr r ↦ (claims, decoded-Credential token claims d a, λ s. ground arith)
          ]
          | inr a ↦ ground arith
        ]
      ]
