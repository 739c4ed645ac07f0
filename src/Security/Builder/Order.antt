-- ===== src/Security/Builder/Order.antt =====
-- What a finished chain is made of: the rules in the order of their registration, the last
-- `any_request`, and the first pattern that does not compile.
use modular_rust_platform.Base.{
  String, Option, none, some, List, [], ◌∷◌, ◌++◌, ok, err, ◌≡◌, refl, ap, sym, ◌∙◌, inl, inr, ◌⊎◌,
  Result-cases, Option-cases, append-nil, append_assoc,
}
use modular_rust_platform.Security.Jwt.{JwtConfig}
use modular_rust_platform.Security.Builder.{
  Matchit, Effect, PatternSpec, pattern, any_request, Rule, missing_any_request, invalid_pattern,
  AuthorizationBuilder, Chain, new, compile, poison, finish_with, finish, build,
}

module _ (lib : Matchit) (E : Type 0) where
  open lib use {InsertError}

  -- One registration: `request_matcher(p)` or `any_request()`, perhaps restricted, with its effect.
  pub record Entry : Type 0 where
    pub spec : PatternSpec
    pub methods : Option (List String)
    pub effect : Effect E

  abbrev pub finish_entry : Entry → AuthorizationBuilder lib E → AuthorizationBuilder lib E
  finish_entry entry b =
      finish lib E entry.effect (record { parent = b; methods = entry.methods; spec = entry.spec })

  unfoldable pub finish_all : List Entry → AuthorizationBuilder lib E → AuthorizationBuilder lib E
  finish_all [] b = b
  finish_all (entry ∷ entries) b = finish_all entries (finish_entry entry b)

  abbrev or_else : {A : Type 0} → Option A → Option A → Option A
  or_else none other = other
  or_else (some x) other = some x

  or_else-none : {A : Type 0} → (o : Option A) → or_else o none ≡ o
  or_else-none none = refl
  or_else-none (some x) = refl

  or_else_assoc :
      {A : Type 0} → (a b c : Option A) → or_else (or_else a b) c ≡ or_else a (or_else b c)
  or_else_assoc none b c = refl
  or_else_assoc (some x) b c = refl

  own_rules : PatternSpec → Option (List String) → Effect E → List (Rule lib E)
  own_rules any_request methods effect = []
  own_rules (pattern p) methods effect = elim (compile lib E p) [
    | ok route ↦ record { methods = methods; route = route; effect = effect } ∷ []
    | err e ↦ []
  ]

  own_error : PatternSpec → Option InsertError
  own_error any_request = none
  own_error (pattern p) = elim (compile lib E p) [ ok route ↦ none | err e ↦ some e ]

  own_any_request : PatternSpec → Effect E → Option (Effect E)
  own_any_request any_request effect = some effect
  own_any_request (pattern p) effect = none

  -- The rules of the registrations whose patterns compile.
  pub rules_of : List Entry → List (Rule lib E)
  rules_of [] = []
  rules_of (entry ∷ entries) = own_rules entry.spec entry.methods entry.effect ++ rules_of entries

  pub first_error : List Entry → Option InsertError
  first_error [] = none
  first_error (entry ∷ entries) = or_else (own_error entry.spec) (first_error entries)

  pub last_any_request : List Entry → Option (Effect E)
  last_any_request [] = none
  last_any_request (entry ∷ entries) =
      or_else (last_any_request entries) (own_any_request entry.spec entry.effect)

  finish_with-rules :
      (spec : PatternSpec) (methods : Option (List String)) (effect : Effect E)
      (b : AuthorizationBuilder lib E)
      → (finish_with lib E spec methods effect b).rules ≡ b.rules ++ own_rules spec methods effect
  unfolding finish_with own_rules poison
  finish_with-rules any_request methods effect b = sym (append-nil b.rules)
  finish_with-rules (pattern p) methods effect b = elim (Result-cases (compile lib E p)) [
    | inl (route, c) ↦ rw (c, finish_with) (rw (c, own_rules) refl)
    | inr (e, c) ↦ elim (Option-cases b.poisoned) [
      | inl q ↦ rw (c, finish_with) (rw (c, own_rules) (rw (q, poison) (sym (append-nil b.rules))))
      | inr (first, q) ↦
          rw (c, finish_with) (rw (c, own_rules) (rw (q, poison) (sym (append-nil b.rules))))
    ]
  ]

  finish_with-any_request :
      (spec : PatternSpec) (methods : Option (List String)) (effect : Effect E)
      (b : AuthorizationBuilder lib E)
      → (finish_with lib E spec methods effect b).any_request
        ≡ or_else (own_any_request spec effect) b.any_request
  unfolding finish_with own_any_request poison
  finish_with-any_request any_request methods effect b = refl
  finish_with-any_request (pattern p) methods effect b = elim (Result-cases (compile lib E p)) [
    | inl (route, c) ↦ rw (c, finish_with) refl
    | inr (e, c) ↦ elim (Option-cases b.poisoned) [
      | inl q ↦ rw (c, finish_with) (rw (q, poison) refl)
      | inr (first, q) ↦ rw (c, finish_with) (rw (q, poison) refl)
    ]
  ]

  finish_with-poisoned :
      (spec : PatternSpec) (methods : Option (List String)) (effect : Effect E)
      (b : AuthorizationBuilder lib E)
      → (finish_with lib E spec methods effect b).poisoned ≡ or_else b.poisoned (own_error spec)
  unfolding finish_with own_error poison
  finish_with-poisoned any_request methods effect b = sym (or_else-none b.poisoned)
  finish_with-poisoned (pattern p) methods effect b = elim (Result-cases (compile lib E p)) [
    | inl (route, c) ↦ rw (c, finish_with) (rw (c, own_error) (sym (or_else-none b.poisoned)))
    | inr (e, c) ↦ elim (Option-cases b.poisoned) [
      | inl q ↦ rw (c, finish_with) (rw (c, own_error) (rw (q, poison) refl))
      | inr (first, q) ↦ rw (c, finish_with) (rw (c, own_error) (rw (q, poison) q))
    ]
  ]

  finish_all-rules :
      (entries : List Entry) (b : AuthorizationBuilder lib E)
      → (finish_all entries b).rules ≡ b.rules ++ rules_of entries
  unfolding finish_all finish rules_of
  finish_all-rules [] b = sym (append-nil b.rules)
  finish_all-rules (entry ∷ entries) b =
      finish_all-rules entries (finish_entry entry b)
      ∙ ap (◌++ rules_of entries) (finish_with-rules entry.spec entry.methods entry.effect b)
      ∙ append_assoc b.rules (own_rules entry.spec entry.methods entry.effect) (rules_of entries)

  finish_all-any_request :
      (entries : List Entry) (b : AuthorizationBuilder lib E)
      → (finish_all entries b).any_request ≡ or_else (last_any_request entries) b.any_request
  unfolding finish_all finish last_any_request
  finish_all-any_request [] b = refl
  finish_all-any_request (entry ∷ entries) b =
      finish_all-any_request entries (finish_entry entry b)
      ∙ ap (or_else (last_any_request entries))
          (finish_with-any_request entry.spec entry.methods entry.effect b)
      ∙ sym (
          or_else_assoc (last_any_request entries) (own_any_request entry.spec entry.effect)
            b.any_request)

  finish_all-poisoned :
      (entries : List Entry) (b : AuthorizationBuilder lib E)
      → (finish_all entries b).poisoned ≡ or_else b.poisoned (first_error entries)
  unfolding finish_all finish first_error
  finish_all-poisoned [] b = sym (or_else-none b.poisoned)
  finish_all-poisoned (entry ∷ entries) b =
      finish_all-poisoned entries (finish_entry entry b)
      ∙ ap (λ o. or_else o (first_error entries))
          (finish_with-poisoned entry.spec entry.methods entry.effect b)
      ∙ or_else_assoc b.poisoned (own_error entry.spec) (first_error entries)

  -- A chain fails to build with the first pattern that does not compile, else for want of an
  -- `any_request`; a chain that builds has the rules in the order of their registration and the last
  -- effect that was given for `any_request`, for every method: the methods of such an entry are dropped.
  pub build-finish_all :
      (config : JwtConfig) (entries : List Entry)
      → ((e : InsertError) × (first_error entries ≡ some e)
          × (build lib E config (finish_all entries (new lib E)) ≡ err (invalid_pattern e)))
        ⊎ (first_error entries ≡ none)
          × (last_any_request entries ≡ none)
          × (build lib E config (finish_all entries (new lib E)) ≡ err missing_any_request)
        ⊎ ((chain : Chain lib E) × (first_error entries ≡ none)
            × (build lib E config (finish_all entries (new lib E)) ≡ ok chain)
            × (chain.rules ≡ rules_of entries)
            × (last_any_request entries ≡ some chain.any_request))
  unfolding build new
  build-finish_all config entries =
      let poisoned_at = finish_all-poisoned entries (new lib E) in
      let any_request_at = finish_all-any_request entries (new lib E) in
      elim (Option-cases (first_error entries)) [
        | inr (e, f) ↦ inl (e, f, rw (poisoned_at ∙ f, build) refl)
        | inl f ↦ elim (Option-cases (last_any_request entries)) [
          | inl l ↦ inr (
              inl (
                f,
                l,
                rw (poisoned_at ∙ f, build)
                    (rw (any_request_at ∙ or_else-none (last_any_request entries) ∙ l, build) refl),
              ))
          | inr (effect, l) ↦ inr (
              inr (
                built (finish_all entries (new lib E)) effect,
                f,
                rw (poisoned_at ∙ f, build)
                    (rw (any_request_at ∙ or_else-none (last_any_request entries) ∙ l, build) refl),
                finish_all-rules entries (new lib E),
                l,
              ))
        ]
      ]
    where
      built : AuthorizationBuilder lib E → Effect E → Chain lib E
      built b effect = record {
        rules = b.rules;
        any_request = effect;
        jwt_config = config;
        claims_validator = b.claims_validator;
        cookie_name = b.cookie_name;
      }
