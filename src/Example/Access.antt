-- ===== src/Example/Access.antt =====
-- `build_authorization` of crates/stano-example-app/rest-api, and crates/stano-example-app/security.
pub mod Admin
mod Tests
use modular_rust_platform.Base.{ℕ, ◌+◌, String, Bool, Option, none, some, Result, ok, err, str_eq}
use modular_rust_platform.Base.Text.{Text}
use modular_rust_platform.Security.Jwt.{Claims, JwtConfig, JsonWebToken, encode_jwt}
use modular_rust_platform.Security.Builder.{
  Matchit, AuthorizationBuilder, Chain, new, request_matcher, match_any_request, finish_permit_all,
  finish_authenticated, finish_has_role, build,
}

pub record AppClaims : Type 0 where
  pub role : String

unfoldable pub is_admin : AppClaims → Bool
is_admin c = str_eq c.role "ADMIN"

module _ (lib : Matchit) where
  abbrev permit : String → AuthorizationBuilder lib AppClaims → AuthorizationBuilder lib AppClaims
  permit p b = finish_permit_all lib AppClaims (request_matcher lib AppClaims p b)

  unfoldable pub rules : AuthorizationBuilder lib AppClaims
  unfolding new request_matcher finish_permit_all finish_has_role is_admin
  rules = finish_has_role lib AppClaims is_admin (
      request_matcher lib AppClaims "/admin/{*rest}" (
        permit "/api-docs/{*rest}" (
          permit "/swagger/{*rest}"
            (permit "/swagger/" (permit "/swagger" (permit "/health" (new lib AppClaims)))))))

  -- `.any_request().authenticated().build(..)`; `none` is the panic of a chain that does not build.
  unfoldable pub expect_build :
      JwtConfig → AuthorizationBuilder lib AppClaims → Option (Chain lib AppClaims)
  unfolding match_any_request finish_authenticated build
  expect_build config b =
      elim (build lib AppClaims config
        (finish_authenticated lib AppClaims (match_any_request lib AppClaims b))) [
          | ok chain ↦ some chain
          | err e ↦ none
        ]

  unfoldable pub build_authorization : JwtConfig → Option (Chain lib AppClaims)
  unfolding rules expect_build
  build_authorization config = expect_build config rules

-- The token of the demonstration user, at a time in seconds. A failed encoding, which panics, is `none`;
-- the expiry is a number without the bound of a `usize`.
unfoldable pub issue_token : JsonWebToken AppClaims → ℕ → String → JwtConfig → Option Text
unfolding encode_jwt
issue_token jwt now role config =
    elim (encode_jwt jwt
      (record {
        sub = "demo-user";
        session_id = "demo-session";
        exp = now + config.expiration_seconds;
        ext = record { role = role };
      })
      config) [ ok token ↦ some token | err e ↦ none ]
