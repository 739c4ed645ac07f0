-- ===== src/Example/Access/Tests.antt =====
-- A router in which patterns are equal to paths, and an administrator.
use modular_rust_platform.Base.{String, none, some, ok, ◌≡◌, refl, str_eq}
use modular_rust_platform.Base.Text.{codes, strip_prefix, trim, trim_start, is_whitespace}
use modular_rust_platform.Errors.Api.{Response}
use modular_rust_platform.Security.Token.{extract_token, bearer_token}
use modular_rust_platform.Security.Jwt.{decode_jwt, JwtConfig, JsonWebToken, Claims}
use modular_rust_platform.Security.Jwt
use modular_rust_platform.Security.Builder.{matches, Matchit, Chain}
use modular_rust_platform.Security.Layer.{applies, decoded, Request, call}
use modular_rust_platform.Security.Layer.Requests.{Presents}
use modular_rust_platform.Example.Access.{is_admin, AppClaims, build_authorization}
use modular_rust_platform.Example.Access.Admin.{chain_of, build_authorization-admin}

-- A router in which a pattern matches itself, and administration is at the path of its pattern.
abbrev exact : Matchit
exact = record {
  Router = String;
  InsertError = Unit {0};
  insert = λ p. ok p;
  at = λ p path. str_eq p path;
}

abbrev known : JsonWebToken AppClaims
known = record {
  EncodingKey = Unit {0};
  DecodingKey = Unit {0};
  encoding_key_from_ec_pem = λ pem. ok tt;
  decoding_key_from_ec_pem = λ pem. ok tt;
  encode = λ claims key. ok (codes "token");
  decode = λ token key. ok (record {
    sub = "demo-user";
    session_id = "demo-session";
    exp = 3600;
    ext = record { role = "ADMIN" };
  });
}

abbrev config : JwtConfig
config = record {
  private_key_pem = "private";
  public_key_pem = "public";
  expiration_seconds = 3600;
}

abbrev page : Request AppClaims → Response
page req = record { status = 200; body = none; error = none }

abbrev admin_request : Request AppClaims
admin_request = record {
  method = "GET";
  path = "/admin/{*rest}";
  headers = record { authorization = some (some (codes "Bearer token")); cookie = none };
  extensions = none;
}

abbrev administrator : Claims AppClaims
administrator = record {
  sub = "demo-user";
  session_id = "demo-session";
  exp = 3600;
  ext = record { role = "ADMIN" };
}

abbrev seen : Request AppClaims
seen = record admin_request { extensions = some (Jwt.new administrator) }

abbrev chain : Chain exact AppClaims
chain = chain_of exact (λ p. p) config

call-seen : (call exact known chain page admin_request).reached ≡ some seen
unfolding call extract_token bearer_token strip_prefix trim trim_start is_whitespace Jwt.new
    is_admin decode_jwt applies matches decoded
call-seen = refl

build_authorization-admin_example :
    (build_authorization exact config ≡ some chain)
    × ((claims : Claims AppClaims) × Presents exact known chain page admin_request claims
        × (claims.ext.role ≡ "ADMIN")
        × (seen.extensions ≡ some (Jwt.new claims)))
build_authorization-admin_example =
    build_authorization-admin exact (λ p. p) known page admin_request config
      (refl, (refl, (refl, (refl, (refl, (refl, tt)))))) seen
      (refl, (refl, (refl, (refl, (refl, (refl, tt)))))) call-seen
