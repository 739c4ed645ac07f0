-- ===== src/Security/Tests.antt =====
-- A chain with a public, an authenticated and a role rule, over a router that matches a pattern by
-- equality and a token library that knows two tokens.
use modular_rust_platform.Base.{
  ℕ, String, Bool, none, some, [], ◌∷◌, ok, err, ◌≡◌, refl, ◌==◌, ◌⊎◌, str_eq, if◌then◌else◌,
}
use modular_rust_platform.Base.Text.{
  Text, codes, text_eq, strip_prefix, trim, trim_start, split, split_once, split_from,
  is_whitespace,
}
use modular_rust_platform.Errors.Api.{Response}
use modular_rust_platform.Security.Jwt.{
  Claims, JwtConfig, JsonWebToken, expired_signature, decode_jwt, new,
}
use modular_rust_platform.Security.Builder
use modular_rust_platform.Security.Builder.{
  Matchit, Effect, permit_all, authenticated, has_role, pattern, any_request, Rule, Chain,
  BuildError, invalid_pattern, missing_any_request, build, compile, matches,
}
use modular_rust_platform.Security.Builder.Order.{
  Entry, finish_all, rules_of, first_error, last_any_request, build-finish_all,
}
use modular_rust_platform.Security.Token.{
  extract_token, bearer_token, cookie_token, find_cookie, cookie_value,
}
use modular_rust_platform.Security.Layer.{
  Request, select_effect, applies, apply_effect, decoded, check, serve, call,
}
use modular_rust_platform.Security.Layer.Outcomes.{Satisfies}
use modular_rust_platform.Security.Layer.Requests.{
  Decides, effect_for, Presents, select_effect-Decides, call-reached, call-refused,
}

abbrev exact : Matchit
exact = record {
  Router = String;
  InsertError = String;
  insert = λ p. if str_eq p "" then err "empty pattern" else ok p;
  at = λ p path. str_eq p path;
}

-- The extension of the claims is the role: 1 for an administrator.
abbrev claims_of : ℕ → Claims ℕ
claims_of role = record { sub = "user"; session_id = "session"; exp = 9999999999; ext = role }

abbrev known_tokens : JsonWebToken ℕ
known_tokens = record {
  EncodingKey = Unit {0};
  DecodingKey = Unit {0};
  encoding_key_from_ec_pem = λ pem. ok tt;
  decoding_key_from_ec_pem = λ pem. ok tt;
  encode = λ claims key. ok (codes "token");
  decode = λ token key.
      if text_eq token (codes "admin")
      then ok (claims_of 1)
      else if text_eq token (codes "user")
      then ok (claims_of 0)
      else err expired_signature;
}

abbrev config : JwtConfig
config = record {
  private_key_pem = "private";
  public_key_pem = "public";
  expiration_seconds = 3600;
}

abbrev is_admin : ℕ → Bool
is_admin role = role == 1

abbrev health : Entry exact ℕ
health = record { spec = pattern "/health"; methods = none; effect = permit_all }

abbrev admin : Entry exact ℕ
admin = record { spec = pattern "/admin"; methods = some ("GET" ∷ []); effect = has_role is_admin }

abbrev others : Entry exact ℕ
others = record { spec = any_request; methods = none; effect = authenticated }

abbrev chain : Chain exact ℕ
chain = record {
  rules =
      record { methods = none; route = "/health"; effect = permit_all }
      ∷ record { methods = some ("GET" ∷ []); route = "/admin"; effect = has_role is_admin }
      ∷ [];
  any_request = authenticated;
  jwt_config = config;
  claims_validator = none;
  cookie_name = some (codes "session");
}

abbrev signed_in : Effect ℕ
signed_in = authenticated

abbrev page : Request ℕ → Response
page req = record { status = 200; body = none; error = none }

abbrev with_header : Text → Request ℕ
with_header header = record {
  method = "GET";
  path = "/admin";
  headers = record { authorization = some (some header); cookie = none };
  extensions = none;
}

abbrev as_admin : Request ℕ
as_admin = with_header (codes "Bearer admin")

abbrev as_user : Request ℕ
as_user = with_header (codes "Bearer user")

build-chain :
    build exact ℕ config (finish_all exact ℕ (health ∷ admin ∷ others ∷ []) (Builder.new exact ℕ))
    ≡ ok (record chain { cookie_name = none })
unfolding build finish_all Builder.new Builder.finish Builder.finish_with Builder.compile
build-chain = refl

cookie-session :
    extract_token
      (record { authorization = none; cookie = some (some (codes "a=1; session=tok")) })
      (some (codes "session"))
    ≡ some (codes "tok")
unfolding extract_token bearer_token cookie_token find_cookie cookie_value strip_prefix trim
    trim_start split split_once split_from is_whitespace text_eq
cookie-session = refl

admin-reached :
    (call exact known_tokens chain page as_admin).reached
    ≡ some (record as_admin { extensions = some (new (claims_of 1)) })
unfolding call check serve apply_effect decoded select_effect applies matches decode_jwt new
    extract_token bearer_token strip_prefix text_eq
admin-reached = refl

user-refused : (call exact known_tokens chain page as_user).reached ≡ none
unfolding call check serve apply_effect decoded select_effect applies matches decode_jwt new
    extract_token bearer_token strip_prefix text_eq
user-refused = refl

build-finish_all_example :
    ((e : String) × (first_error exact ℕ (health ∷ others ∷ []) ≡ some e)
      × (build exact ℕ config (finish_all exact ℕ (health ∷ others ∷ []) (Builder.new exact ℕ))
          ≡ err (invalid_pattern e)))
    ⊎ (first_error exact ℕ (health ∷ others ∷ []) ≡ none)
      × (last_any_request exact ℕ (health ∷ others ∷ []) ≡ none)
      × (build exact ℕ config (finish_all exact ℕ (health ∷ others ∷ []) (Builder.new exact ℕ))
          ≡ err missing_any_request)
    ⊎ ((c : Chain exact ℕ) × (first_error exact ℕ (health ∷ others ∷ []) ≡ none)
        × (build exact ℕ config (finish_all exact ℕ (health ∷ others ∷ []) (Builder.new exact ℕ))
            ≡ ok c)
        × (c.rules ≡ rules_of exact ℕ (health ∷ others ∷ []))
        × (last_any_request exact ℕ (health ∷ others ∷ []) ≡ some c.any_request))
build-finish_all_example = build-finish_all exact ℕ config (health ∷ others ∷ [])

select_effect-Decides_example :
    Decides exact chain.rules authenticated "GET" "/admin"
      (select_effect exact chain.rules authenticated "GET" "/admin")
select_effect-Decides_example = select_effect-Decides exact chain.rules authenticated "GET" "/admin"

call-reached_example :
    (effect_for exact known_tokens chain page as_admin ≡ permit_all)
    ⊎ ((claims : Claims ℕ) × Presents exact known_tokens chain page as_admin claims
        × Satisfies (effect_for exact known_tokens chain page as_admin) claims
        × (some (new (claims_of 1)) ≡ some (new claims)))
call-reached_example =
    call-reached exact known_tokens chain page as_admin
      (record as_admin { extensions = some (new (claims_of 1)) }) admin-reached

call-refused_example :
    (((call exact known_tokens chain page as_user).response.status ≡ 401)
      × ((call exact known_tokens chain page as_user).counted ≡ some ("GET", 401))
      × ¬ ((claims : Claims ℕ) × Presents exact known_tokens chain page as_user claims))
    ⊎ (((call exact known_tokens chain page as_user).response.status ≡ 403)
        × ((call exact known_tokens chain page as_user).counted ≡ some ("GET", 403))
        × ((claims : Claims ℕ) × Presents exact known_tokens chain page as_user claims
            × ¬ Satisfies (effect_for exact known_tokens chain page as_user) claims))
call-refused_example = call-refused exact known_tokens chain page as_user user-refused
