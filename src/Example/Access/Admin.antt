-- ===== src/Example/Access/Admin.antt =====
-- Who reaches the administration of the example application.
use modular_rust_platform.Base.{
  String, true, false, ◌≡◌, refl, sym, ap, ◌∙◌, subst, inl, inr, none, some, List, [], ◌∷◌, ◌++◌,
  ok, eq_iff, All,
}
use modular_rust_platform.Errors.Api.{Response}
use modular_rust_platform.Security.Jwt.{Claims, JwtConfig, JsonWebToken}
use modular_rust_platform.Security.Jwt
use modular_rust_platform.Security.Builder.{
  Matchit, Effect, permit_all, authenticated, has_role, Rule, AuthorizationBuilder, Chain, new,
  request_matcher, match_any_request, finish_permit_all, finish_authenticated, finish_has_role,
  finish, finish_with, compile, build, matches,
}
use modular_rust_platform.Security.Layer.{Request, applies, select_effect, call}
use modular_rust_platform.Security.Layer.Outcomes.{Satisfies}
use modular_rust_platform.Security.Layer.Requests.{effect_for, Presents, call-reached}
use modular_rust_platform.Example.Access.{
  AppClaims, is_admin, rules, expect_build, build_authorization,
}

abbrev pub public_patterns : List String
public_patterns =
    "/health" ∷ "/swagger" ∷ "/swagger/" ∷ "/swagger/{*rest}" ∷ "/api-docs/{*rest}" ∷ []

abbrev pub admin_pattern : String
admin_pattern = "/admin/{*rest}"

module _ (lib : Matchit) (route : String → lib.Router) where
  -- The patterns of the application are valid ones.
  abbrev pub Compiles : Type 0
  Compiles = All (λ p. lib.insert p ≡ ok (route p)) (admin_pattern ∷ public_patterns)

  abbrev pub public_rule : String → Rule lib AppClaims
  public_rule p = record { methods = none; route = route p; effect = permit_all }

  -- The rules of the application, in their order.
  abbrev pub chain_of : JwtConfig → Chain lib AppClaims
  chain_of config = record {
    rules =
        public_rule "/health"
        ∷ public_rule "/swagger"
        ∷ public_rule "/swagger/"
        ∷ public_rule "/swagger/{*rest}"
        ∷ public_rule "/api-docs/{*rest}"
        ∷ record { methods = none; route = route admin_pattern; effect = has_role is_admin }
        ∷ [];
    any_request = authenticated;
    jwt_config = config;
    claims_validator = none;
    cookie_name = none;
  }

  abbrev with_rule :
      Effect AppClaims
      → String
      → AuthorizationBuilder lib AppClaims
      → AuthorizationBuilder lib AppClaims
  with_rule effect p b = record b {
    rules = b.rules ++ record { methods = none; route = route p; effect = effect } ∷ [];
  }

  finish-with_rule :
      (effect : Effect AppClaims) (p : String) (b : AuthorizationBuilder lib AppClaims)
      → lib.insert p ≡ ok (route p)
      → finish lib AppClaims effect (request_matcher lib AppClaims p b) ≡ with_rule effect p b
  unfolding finish finish_with compile request_matcher
  finish-with_rule effect p b e = rw (e, finish_with) refl

  abbrev permit_pattern :
      String → AuthorizationBuilder lib AppClaims → AuthorizationBuilder lib AppClaims
  permit_pattern p b = finish lib AppClaims permit_all (request_matcher lib AppClaims p b)

  permits : List String → AuthorizationBuilder lib AppClaims → AuthorizationBuilder lib AppClaims
  permits [] b = b
  permits (p ∷ ps) b = permits ps (permit_pattern p b)

  with_rules : List String → AuthorizationBuilder lib AppClaims → AuthorizationBuilder lib AppClaims
  with_rules [] b = b
  with_rules (p ∷ ps) b = with_rules ps (with_rule permit_all p b)

  permits-with_rules :
      (ps : List String) (b : AuthorizationBuilder lib AppClaims)
      → All (λ p. lib.insert p ≡ ok (route p)) ps
      → permits ps b ≡ with_rules ps b
  unfolding permits with_rules
  permits-with_rules [] b h = refl
  permits-with_rules (p ∷ ps) b (h, hs) =
      ap (permits ps) (finish-with_rule permit_all p b h)
      ∙ permits-with_rules ps (with_rule permit_all p b) hs

  rules-with_rules :
      Compiles
      → rules lib
        ≡ with_rule
            (has_role is_admin)
            admin_pattern
            (with_rules public_patterns (new lib AppClaims))
  unfolding rules permits finish_permit_all finish_has_role
  rules-with_rules (admin, public) =
      finish-with_rule (has_role is_admin) admin_pattern
        (permits public_patterns (new lib AppClaims)) admin
      ∙ ap (with_rule (has_role is_admin) admin_pattern)
          (permits-with_rules public_patterns (new lib AppClaims) public)

  pub build_authorization_lem :
      (config : JwtConfig) → Compiles → build_authorization lib config ≡ some (chain_of config)
  unfolding build_authorization expect_build with_rules new match_any_request finish_authenticated
      finish finish_with build
  build_authorization_lem config valid = ap (expect_build lib config) (rules-with_rules valid)

  -- A path of the administration and of no public pattern.
  abbrev pub IsAdminPath : String → Type 0
  IsAdminPath path =
      (lib.at (route admin_pattern) path ≡ true)
      × All (λ p. lib.at (route p) path ≡ false) public_patterns

  module _ (jwt : JsonWebToken AppClaims) (inner : Request AppClaims → Response)
      (req : Request AppClaims) where
    effect_for-admin :
        (config : JwtConfig)
        → IsAdminPath req.path
        → effect_for lib jwt (chain_of config) inner req ≡ has_role is_admin
    unfolding select_effect applies matches
    effect_for-admin config
          (here, (health, (swagger, (swagger_slash, (swagger_rest, (docs, _)))))) =
        rw (health, select_effect, applies, matches)
          (rw (swagger, select_effect)
            (rw (swagger_slash, select_effect)
              (rw (swagger_rest, select_effect)
                (rw (docs, select_effect) (rw (here, select_effect) refl)))))

    -- Where the application's patterns are valid, its authorization is built, and a request for a path of
    -- the administration that is of no public pattern reaches a handler only with a credential for
    -- claims with the role ADMIN, which are the security context that the handler sees.
    pub build_authorization-admin :
        (config : JwtConfig)
        → Compiles
        → (seen : Request AppClaims) → IsAdminPath req.path
        → (call lib jwt (chain_of config) inner req).reached ≡ some seen
        → (build_authorization lib config ≡ some (chain_of config))
          × ((claims : Claims AppClaims) × Presents lib jwt (chain_of config) inner req claims
              × (claims.ext.role ≡ "ADMIN")
              × (seen.extensions ≡ some (Jwt.new claims)))
    unfolding is_admin
    build_authorization-admin config valid seen path e = (
      build_authorization_lem config valid,
      elim (call-reached lib jwt (chain_of config) inner req seen e) [
        | inl free ↦ absurd (role-ne-free (sym (effect_for-admin config path) ∙ free))
        | inr (claims, presents, satisfied, context) ↦ (
          claims,
          presents,
          (eq_iff claims.ext.role "ADMIN").0
              (subst (λ effect. Satisfies effect claims) (effect_for-admin config path) satisfied),
          context,
        )
      ],
    )
      where
        role-ne-free : has_role is_admin ≡ permit_all → ⊥
        role-ne-free h = cc
