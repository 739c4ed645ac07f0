-- ===== src/Security/Layer.antt =====
-- crates/stano-axum/src/security/layer.rs: the check of a request against the rule table and the
-- middleware around it, and the extractor of
-- crates/stano-axum/src/extractors/app_security_context.rs.
-- The inner service is a parameter. `counted` is the method and the status with which the failure
-- counter was incremented, and `reached` the request that the inner service was called with. The check is
-- that of a validator whose future resolves; `validation` says whether it does.
pub mod Applies
pub mod Outcomes
pub mod Requests
use modular_rust_platform.Base.{
  ℕ, String, Bool, true, false, ◌&&◌, ◌||◌, Option, none, some, List, [], ◌∷◌, Result, ok, err, any,
  str_eq, if◌then◌else◌,
}
use modular_rust_platform.Base.Text.{Text}
use modular_rust_platform.Errors.Service.{
  ServiceError, unauthorized as unauthorized_error, forbidden as forbidden_error,
}
use modular_rust_platform.Errors.Api.{
  ApiError, Response, StatusCode, into_response, from_service_error,
}
use modular_rust_platform.Security.Jwt.{
  Claims, SecurityContext, JwtConfig, JsonWebToken, decode_jwt, new,
}
use modular_rust_platform.Security.Builder.{
  Matchit, Effect, permit_all, authenticated, has_role, Course, resolves, ClaimsValidator, Rule,
  Chain, matches,
}
use modular_rust_platform.Security.Token.{HeaderMap, extract_token}

pub data Outcome : Type 0 where
  allow unauthorized forbidden : Outcome

-- `extensions`: the security context among them.
abbrev pub Extensions : Type 0 → Type 0
Extensions E = Option (SecurityContext E)

pub record Request (E : Type 0) : Type 0 where
  pub method : String
  pub path : String
  pub headers : HeaderMap
  pub extensions : Extensions E

pub record Served (E : Type 0) : Type 0 where
  pub response : Response
  pub counted : Option (String × StatusCode)
  pub reached : Option (Request E)

-- `AppSecurityContext::from_request_parts`
pub app_security_context : {E : Type 0} → Extensions E → Result (SecurityContext E) ApiError
app_security_context none = err (from_service_error unauthorized_error)
app_security_context (some context) = ok context

-- `validator(&claims).await.is_ok()`, true where no validator is set.
abbrev pub accepted : {E : Type 0} → Option (ClaimsValidator E) → Claims E → Bool
accepted none claims = true
accepted (some validator) claims = elim (validator.verdict claims) [ ok _ ↦ true | err _ ↦ false ]

module _ {E : Type 0} (jwt : JsonWebToken E) where
  -- `token.as_deref().and_then(|t| decode_jwt::<E>(t, jwt_config).ok())`
  unfoldable pub decoded : JwtConfig → Option Text → Option (Claims E)
  decoded config none = none
  decoded config (some token) = elim (decode_jwt jwt token config) [
    | ok claims ↦ some claims
    | err e ↦ none
  ]

  unfoldable pub apply_effect :
      Effect E
      → Option Text
      → JwtConfig
      → Option (ClaimsValidator E)
      → Extensions E
      → Outcome × Extensions E
  unfolding new
  apply_effect permit_all token config validator extensions = elim (decoded config token) [
    | none ↦ (allow, extensions)
    | some claims ↦ (allow, if accepted validator claims then some (new claims) else extensions)
  ]
  apply_effect authenticated token config validator extensions = elim (decoded config token) [
    | none ↦ (unauthorized, extensions)
    | some claims ↦
        if accepted validator claims then (allow, some (new claims)) else (unauthorized, extensions)
  ]
  apply_effect (has_role predicate) token config validator extensions =
      elim (decoded config token) [
        | none ↦ (unauthorized, extensions)
        | some claims ↦
            if accepted validator claims
            then (if predicate claims.ext
                then (allow, some (new claims))
                else (forbidden, extensions))
            else (unauthorized, extensions)
      ]

-- `methods.contains(method)`, true where the rule is for any method.
abbrev pub allows_method : Option (List String) → String → Bool
allows_method none method = true
allows_method (some methods) method = any (λ m. str_eq m method) methods

module _ (lib : Matchit) {E : Type 0} where
  unfoldable pub applies : Rule lib E → String → String → Bool
  applies rule method path = allows_method rule.methods method && matches lib E rule.route path

  -- `self.rules.iter().find(...)`, with the effect of `any_request` behind the rules.
  unfoldable pub select_effect : List (Rule lib E) → Effect E → String → String → Effect E
  select_effect [] any_request method path = any_request
  select_effect (rule ∷ rules) any_request method path =
      if applies rule method path then rule.effect else select_effect rules any_request method path

  module _ (jwt : JsonWebToken E) where
    -- How the validator's future goes that the check of a request awaits: under each of the effects the
    -- validator is called if there is one and the token decodes.
    abbrev course_of : Option (ClaimsValidator E) → Option (Claims E) → Course
    course_of none claims = resolves
    course_of (some validator) none = resolves
    course_of (some validator) (some claims) = validator.course claims

    unfoldable pub validation : Chain lib E → Request E → Course
    unfolding decoded
    validation chain req =
        course_of chain.claims_validator
          (decoded jwt chain.jwt_config (extract_token req.headers chain.cookie_name))

    unfoldable pub check :
        Chain lib E → String → String → Option Text → Extensions E → Outcome × Extensions E
    unfolding select_effect apply_effect
    check chain method path token extensions =
        apply_effect jwt (select_effect chain.rules chain.any_request method path) token
          chain.jwt_config chain.claims_validator extensions

    -- The end of the middleware, for each outcome of the check.
    unfoldable pub serve : (Request E → Response) → Request E → Outcome → Served E
    unfolding from_service_error
    serve inner req allow = record { response = inner req; counted = none; reached = some req }
    serve inner req unauthorized = record {
      response = (into_response (from_service_error unauthorized_error)).0;
      counted = some (req.method, 401);
      reached = none;
    }
    serve inner req forbidden = record {
      response = (into_response (from_service_error forbidden_error)).0;
      counted = some (req.method, 403);
      reached = none;
    }

    unfoldable pub call : Chain lib E → (Request E → Response) → Request E → Served E
    unfolding check serve
    call chain inner req =
        let token = extract_token req.headers chain.cookie_name in
        let (outcome, extensions) = check chain req.method req.path token req.extensions in
        serve inner (record req { extensions = extensions }) outcome
