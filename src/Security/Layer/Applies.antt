-- ===== src/Security/Layer/Applies.antt =====
-- Which requests a rule of crates/stano-axum/src/security/layer.rs is for.
use modular_rust_platform.Base.{
  String, Bool, true, false, ◌&&◌, Option, none, some, List, [], ◌∷◌, ◌≡◌, ◌↔◌, refl, sym, ◌∙◌, ◌⊎◌,
  inl, inr, subst, In, any, str_eq, eq_iff, arith, Bool-cases, false-ne-true, none-ne-some,
  some_injective,
}
use modular_rust_platform.Security.Builder.{Matchit, Rule, matches}
use modular_rust_platform.Security.Layer.{allows_method, applies}

any-In :
    (methods : List String) (method : String)
    → any (λ m. str_eq m method) methods ≡ true
    → In method methods
any-In [] method h = absurd (false-ne-true h)
any-In (m ∷ methods) method h = elim (Bool-cases (str_eq m method)) [
  | inl here ↦ inl (sym ((eq_iff m method).0 here))
  | inr there ↦ inr (any-In methods method (ground arith))
]

In-any :
    (methods : List String) (method : String)
    → In method methods
    → any (λ m. str_eq m method) methods ≡ true
In-any [] method h = absurd h
In-any (m ∷ methods) method (inl here) = let e = (eq_iff m method).1 (sym here) in ground arith
In-any (m ∷ methods) method (inr later) = let e = In-any methods method later in ground arith

allows_method_iff :
    (listed : Option (List String)) (method : String)
    → (allows_method listed method ≡ true)
      ↔ ((listed ≡ none) ⊎ ((methods : List String) × (listed ≡ some methods) × In method methods))
allows_method_iff none method = ((λ h. inl refl), λ h. refl)
allows_method_iff (some methods) method = (
  (λ h. inr (methods, refl, any-In methods method h)),
  λ h. elim h [
    | inl e ↦ absurd (none-ne-some (sym e))
    | inr (ms, e, i) ↦ In-any methods method (subst (In method) (sym (some_injective e)) i)
  ],
)

both_true : (a b : Bool) → ((a && b) ≡ true) ↔ ((a ≡ true) × (b ≡ true))
both_true true b = ((λ h. (refl, h)), λ h. h.1)
both_true false b = ((λ h. absurd (false-ne-true h)), λ h. absurd (false-ne-true h.0))

module _ (lib : Matchit) {E : Type 0} where
  -- The rule is for the method, by a list that has it or by having no list, and its pattern matches the
  -- path.
  abbrev pub Applies : Rule lib E → String → String → Type 0
  Applies rule method path =
      ((rule.methods ≡ none)
        ⊎ ((methods : List String) × (rule.methods ≡ some methods) × In method methods))
      × (lib.at rule.route path ≡ true)

  pub applies_iff :
      (rule : Rule lib E) (method path : String)
      → (applies lib rule method path ≡ true) ↔ Applies rule method path
  unfolding applies matches
  applies_iff rule method path =
      let listed = allows_method_iff rule.methods method in
      let both = both_true (allows_method rule.methods method) (lib.at rule.route path) in
      ((λ h. (listed.0 (both.0 h).0, (both.0 h).1)), λ h. both.1 (listed.1 h.0, h.1))

  pub not_Applies :
      (rule : Rule lib E) (method path : String)
      → applies lib rule method path ≡ false
      → ¬ Applies rule method path
  not_Applies rule method path h a = false-ne-true (sym h ∙ (applies_iff rule method path).1 a)
