-- ===== src/Launcher/Responses.antt =====
-- `add_security_headers` and `handle_panic` of crates/stano-launcher/src/server.rs. The headers of a
-- response are a function on their names; the payload of a panic is a string or something else.
use modular_rust_platform.Base.{
  String, Option, none, some, ◌≡◌, ◌≢◌, refl, str_eq, eq_iff, if◌then◌else◌, arith,
}
use modular_rust_platform.Errors.Api
use modular_rust_platform.Errors.Api.{
  Response, ApiError, internal_error, into_response, describe, attach_details,
}

abbrev pub Headers : Type 0
Headers = String → Option String

-- `HeaderMap::insert`
unfoldable pub insert_header : String → String → Headers → Headers
insert_header name value headers k = if str_eq name k then some value else headers k

-- What is done with the headers that `next` returns.
unfoldable pub add_security_headers : Headers → Headers
unfolding insert_header
add_security_headers headers =
    insert_header "strict-transport-security" "max-age=31536000; includeSubDomains" (
      insert_header "x-frame-options" "DENY"
        (insert_header "x-content-type-options" "nosniff" headers))

-- Whatever headers a handler sets, the response has the three security headers with their values once,
-- and every other header as the handler set it.
pub add_security_headers-get :
    (headers : Headers) (name : String)
    → name ≢ "x-content-type-options"
    → name ≢ "x-frame-options"
    → name ≢ "strict-transport-security"
    → (add_security_headers headers "x-content-type-options" ≡ some "nosniff")
      × (add_security_headers headers "x-frame-options" ≡ some "DENY")
      × (add_security_headers headers "strict-transport-security"
          ≡ some "max-age=31536000; includeSubDomains")
      × (add_security_headers headers name ≡ headers name)
unfolding add_security_headers insert_header
add_security_headers-get headers name a b c = (
  refl,
  refl,
  refl,
  ground (
    arith,
    eq_iff "x-content-type-options" name,
    eq_iff "x-frame-options" name,
    eq_iff "strict-transport-security" name,
  ),
)

pub data PanicPayload : Type 0 where
  string str : String → PanicPayload
  other : PanicPayload

-- The message that is logged.
pub panic_message : PanicPayload → String
panic_message (string msg) = msg
panic_message (str msg) = msg
panic_message other = "unknown panic"

unfoldable pub handle_panic : PanicPayload → Response × String
unfolding panic_message
handle_panic payload = (
  record {
    status = 500;
    body = some (Api.new 500 "INTERNAL_ERROR" "An internal error occurred");
    error = none;
  },
  panic_message payload,
)

-- A client cannot tell a panic from an internal error: the status and the body are the same, whatever
-- the payload of the panic and the message of the error.
pub handle_panic-into_response :
    (payload : PanicPayload) (msg : String)
    → ((handle_panic payload).0.status ≡ (into_response (internal_error msg)).0.status)
      × ((handle_panic payload).0.body ≡ (into_response (internal_error msg)).0.body)
unfolding handle_panic into_response describe attach_details
handle_panic-into_response payload msg = (refl, refl)
