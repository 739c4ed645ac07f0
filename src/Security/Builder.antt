-- ===== src/Security/Builder.antt =====
-- crates/stano-axum/src/security/authorization.rs and pattern.rs: the rule table and its builder.
-- The crate `matchit` is a parameter: `insert` compiles a pattern, `at` matches a path.
pub mod Order
use modular_rust_platform.Base.{
  String, Bool, true, false, ◌||◌, Option, none, some, List, [], ◌∷◌, ◌++◌, Result, ok, err, any,
}
use modular_rust_platform.Base.Text.{Text}
use modular_rust_platform.Security.Jwt.{Claims, JwtConfig}
use modular_rust_platform.Launcher.Responses.{PanicPayload}

-- `matchit::Router<()>` with one route.
pub record Matchit : Type 1 where
  pub Router : Type 0
  pub InsertError : Type 0
  pub insert : String → Result Router InsertError
  pub at : Router → String → Bool

pub data Effect (E : Type 0) : Type 0 where
  permit_all : Effect E
  authenticated : Effect E
  has_role : (E → Bool) → Effect E

pub data PatternSpec : Type 0 where
  pattern : String → PatternSpec
  any_request : PatternSpec

-- How a future goes: it resolves, unwinds, or never ends.
pub data Course : Type 0 where
  resolves hangs : Course
  unwinds : PanicPayload → Course

-- A claims validator, by the future that it returns for claims: how that goes, and what it resolves to,
-- where it does.
pub record ClaimsValidator (E : Type 0) : Type 0 where
  pub course : Claims E → Course
  pub verdict : Claims E → Result (Unit {0}) String

module _ (lib : Matchit) (E : Type 0) where
  open lib use {Router, InsertError, insert, at}

  -- `CompiledPattern::new` and `CompiledPattern::matches`
  unfoldable pub compile : String → Result Router InsertError
  compile p = insert p

  unfoldable pub matches : Router → String → Bool
  matches p path = at p path

  pub record Rule : Type 0 where
    pub methods : Option (List String)
    pub route : Router
    pub effect : Effect E

  pub data BuildError : Type 0 where
    missing_any_request : BuildError
    invalid_pattern : InsertError → BuildError

  pub record AuthorizationBuilder : Type 0 where
    pub rules : List Rule
    pub any_request : Option (Effect E)
    pub claims_validator : Option (ClaimsValidator E)
    pub cookie_name : Option Text
    pub poisoned : Option InsertError

  pub record RequestMatcherBuilder : Type 0 where
    pub parent : AuthorizationBuilder
    pub methods : Option (List String)
    pub spec : PatternSpec

  -- What `build_layer` keeps of a finished chain.
  pub record Chain : Type 0 where
    pub rules : List Rule
    pub any_request : Effect E
    pub jwt_config : JwtConfig
    pub claims_validator : Option (ClaimsValidator E)
    pub cookie_name : Option Text

  unfoldable pub new : AuthorizationBuilder
  new = record {
    rules = [];
    any_request = none;
    claims_validator = none;
    cookie_name = none;
    poisoned = none;
  }

  unfoldable pub request_matcher : String → AuthorizationBuilder → RequestMatcherBuilder
  request_matcher p b = record { parent = b; methods = none; spec = pattern p }

  unfoldable pub match_any_request : AuthorizationBuilder → RequestMatcherBuilder
  match_any_request b = record { parent = b; methods = none; spec = PatternSpec.any_request }

  pub with_claims_validator : ClaimsValidator E → AuthorizationBuilder → AuthorizationBuilder
  with_claims_validator validator b = record b { claims_validator = some validator }

  pub with_cookie_name : Text → AuthorizationBuilder → AuthorizationBuilder
  with_cookie_name name b = record b { cookie_name = some name }

  -- `self.poisoned.get_or_insert(err)`: the first error stays.
  unfoldable pub poison : InsertError → AuthorizationBuilder → AuthorizationBuilder
  poison e b = elim b.poisoned [ none ↦ record b { poisoned = some e } | some first ↦ b ]

  -- `finish`, for each kind of pattern.
  unfoldable pub finish_with :
      PatternSpec → Option (List String) → Effect E → AuthorizationBuilder → AuthorizationBuilder
  finish_with PatternSpec.any_request methods effect parent = record parent {
    any_request = some effect;
  }
  finish_with (pattern p) methods effect parent = elim (compile p) [
    | ok route ↦ record parent {
      rules = parent.rules ++ record { methods = methods; route = route; effect = effect } ∷ [];
    }
    | err e ↦ poison e parent
  ]

  unfoldable pub finish : Effect E → RequestMatcherBuilder → AuthorizationBuilder
  unfolding finish_with poison compile
  finish effect m = finish_with m.spec m.methods effect m.parent

  pub restrict_methods : List String → RequestMatcherBuilder → RequestMatcherBuilder
  restrict_methods methods m = record m { methods = some methods }

  unfoldable pub finish_permit_all : RequestMatcherBuilder → AuthorizationBuilder
  unfolding finish
  finish_permit_all m = finish permit_all m

  unfoldable pub finish_authenticated : RequestMatcherBuilder → AuthorizationBuilder
  unfolding finish
  finish_authenticated m = finish authenticated m

  unfoldable pub finish_has_role : (E → Bool) → RequestMatcherBuilder → AuthorizationBuilder
  unfolding finish
  finish_has_role predicate m = finish (has_role predicate) m

  pub finish_has_any_role : List (E → Bool) → RequestMatcherBuilder → AuthorizationBuilder
  unfolding finish
  finish_has_any_role predicates m = finish (has_role (λ e. any (λ p. p e) predicates)) m

  unfoldable pub build : JwtConfig → AuthorizationBuilder → Result Chain BuildError
  build config b = elim b.poisoned [
    | some e ↦ err (invalid_pattern e)
    | none ↦ elim b.any_request [
      | none ↦ err missing_any_request
      | some effect ↦ ok record {
        rules = b.rules;
        any_request = effect;
        jwt_config = config;
        claims_validator = b.claims_validator;
        cookie_name = b.cookie_name;
      }
    ]
  ]
