-- ===== src/Security/Jwt.antt =====
-- crates/stano-security/src: claims, security context, and JWT encoding and decoding. The crate
-- `jsonwebtoken` is a parameter: its keys, and what `encode` and `decode` return for them.
use modular_rust_platform.Base.{ℕ, String, Result, ok, err}
use modular_rust_platform.Base.Text.{Text}

pub record Claims (E : Type 0) : Type 0 where
  pub sub : String
  pub session_id : String
  pub exp : ℕ
  pub ext : E

pub record SecurityContext (E : Type 0) : Type 0 where
  pub claims : Claims E

pub record JwtConfig : Type 0 where
  pub private_key_pem : String
  pub public_key_pem : String
  pub expiration_seconds : ℕ

pub data JwtError : Type 0 where
  encoding_failed : String → JwtError
  decoding_failed : String → JwtError
  invalid_key : String → JwtError
  token_expired : JwtError
  invalid_token : String → JwtError

-- The `ErrorKind` of a failed `decode`: an expired signature, or another one with its text.
pub data DecodeFailure : Type 0 where
  expired_signature : DecodeFailure
  other : String → DecodeFailure

-- `jsonwebtoken`, for ES256 and claims with the extension `E`. The errors of the first three are
-- their texts.
pub record JsonWebToken (E : Type 0) : Type 1 where
  pub EncodingKey : Type 0
  pub DecodingKey : Type 0
  pub encoding_key_from_ec_pem : String → Result EncodingKey String
  pub decoding_key_from_ec_pem : String → Result DecodingKey String
  pub encode : Claims E → EncodingKey → Result Text String
  pub decode : Text → DecodingKey → Result (Claims E) DecodeFailure

module _ {E : Type 0} where
  unfoldable pub new : Claims E → SecurityContext E
  new claims = record { claims = claims }

  pub sub : SecurityContext E → String
  sub context = context.claims.sub

  pub session_id : SecurityContext E → String
  session_id context = context.claims.session_id

  pub ext : SecurityContext E → E
  ext context = context.claims.ext

module _ {E : Type 0} (jwt : JsonWebToken E) where
  open jwt use {
    EncodingKey, DecodingKey, encoding_key_from_ec_pem, decoding_key_from_ec_pem, encode, decode,
  }

  unfoldable pub encode_jwt : Claims E → JwtConfig → Result Text JwtError
  encode_jwt claims config = elim (encoding_key_from_ec_pem config.private_key_pem) [
    | err e ↦ err (invalid_key e)
    | ok key ↦ elim (encode claims key) [ err e ↦ err (encoding_failed e) | ok token ↦ ok token ]
  ]

  unfoldable pub decode_jwt : Text → JwtConfig → Result (Claims E) JwtError
  decode_jwt token config = elim (decoding_key_from_ec_pem config.public_key_pem) [
    | err e ↦ err (invalid_key e)
    | ok key ↦ elim (decode token key) [
      | ok claims ↦ ok claims
      | err expired_signature ↦ err token_expired
      | err (other e) ↦ err (decoding_failed e)
    ]
  ]
