-- ===== src/Errors/Api.antt =====
-- crates/stano-axum/src/error: `ErrorResponse`, `ApiError` and its `IntoResponse`, and
-- crates/stano-axum/src/middleware/error_logging.rs. A response holds the parts that this code
-- writes and reads: the status, the JSON body of an error (`none` for any other body) and the
-- `ApiError` among its extensions. What the code logs is returned beside it.
pub mod Disclosure
mod Tests
use modular_rust_platform.Base.{
  ℕ, String, Bool, true, false, ◌&&◌, Option, none, some, ltb, leb, if◌then◌else◌, Result, ok, err,
}
use modular_rust_platform.Errors.Service.{
  ServiceError, not_found, invalid_input, conflict, unauthorized, forbidden, internal, DomainError,
}

abbrev pub StatusCode : Type 0
StatusCode = ℕ

-- `StatusCode::is_client_error`: the 4xx codes.
abbrev pub is_client_error : StatusCode → Bool
is_client_error status = leb 400 status && ltb status 500

pub record ErrorResponse : Type 0 where
  pub status : ℕ
  pub code : String
  pub message : String
  pub details : Option String
  pub request_id : Option String

pub new : ℕ → String → String → ErrorResponse
new status code message = record {
  status = status;
  code = code;
  message = message;
  details = none;
  request_id = none;
}

pub with_details : String → ErrorResponse → ErrorResponse
with_details details r = record r { details = some details }

pub with_request_id : String → ErrorResponse → ErrorResponse
with_request_id request_id r = record r { request_id = some request_id }

pub data ApiError : Type 0 where
  json_extraction : StatusCode → String → String → ApiError
  path_extraction : StatusCode → String → String → ApiError
  query_extraction : StatusCode → String → String → ApiError
  service : ServiceError → ApiError
  internal_error : String → ApiError

pub record Response : Type 0 where
  pub status : StatusCode
  pub body : Option ErrorResponse
  pub error : Option ApiError

-- The tuple `(status, code, message, details, should_log)`.
pub record Description : Type 0 where
  pub status : StatusCode
  pub code : String
  pub message : String
  pub details : Option String
  pub should_log : Bool

abbrev described : StatusCode → String → String → Option String → Bool → Description
described status code message details should_log = record {
  status = status;
  code = code;
  message = message;
  details = details;
  should_log = should_log;
}

unfoldable pub describe_service : ServiceError → Description
describe_service not_found = described 404 "NOT_FOUND" "Resource not found" none false
describe_service (invalid_input msg) =
    described 400 "INVALID_INPUT" "Invalid request" (some msg) true
describe_service (conflict msg) = described 409 "CONFLICT" "Resource conflict" (some msg) true
describe_service unauthorized = described 401 "UNAUTHORIZED" "Authentication required" none false
describe_service forbidden = described 403 "FORBIDDEN" "Insufficient permissions" none false
describe_service (internal cause) =
    described 500 "INTERNAL_ERROR" "An internal error occurred" none true

unfoldable pub describe : ApiError → Description
unfolding describe_service
describe (json_extraction status body_text rejection_type) =
    described status "INVALID_JSON" "Failed to parse JSON request body" (some body_text) true
describe (path_extraction status body_text rejection_type) =
    described status "INVALID_PATH" "Invalid path parameter" (some body_text) true
describe (query_extraction status body_text rejection_type) =
    described status "INVALID_QUERY" "Invalid query parameter" (some body_text) true
describe (service e) = describe_service e
describe (internal_error msg) =
    described 500 "INTERNAL_ERROR" "An internal error occurred" none true

-- `if status.is_client_error() && let Some(d) = details`
unfoldable pub attach_details : StatusCode → Option String → ErrorResponse → ErrorResponse
unfolding with_details
attach_details status none r = r
attach_details status (some d) r = if is_client_error status then with_details d r else r

unfoldable pub into_response : ApiError → Response × Bool
unfolding describe attach_details new
into_response e =
    let d = describe e in
    (
      record {
        status = d.status;
        body = some (attach_details d.status d.details (new d.status d.code d.message));
        error = some e;
      },
      d.should_log,
    )

-- What `error_logging_middleware` logs of a response: the error in its extensions.
unfoldable pub logged_error : Response → Option ApiError
logged_error r = r.error

-- A rejection of an axum extractor: its status, body text and type name.
pub record Rejection : Type 0 where
  pub status : StatusCode
  pub body_text : String
  pub rejection_type : String

-- `From<JsonRejection>`, `From<PathRejection>`, `From<QueryRejection>` and `From<ServiceError>`.
pub from_json_rejection : Rejection → ApiError
from_json_rejection r = json_extraction r.status r.body_text r.rejection_type

pub from_path_rejection : Rejection → ApiError
from_path_rejection r = path_extraction r.status r.body_text r.rejection_type

pub from_query_rejection : Rejection → ApiError
from_query_rejection r = query_extraction r.status r.body_text r.rejection_type

unfoldable pub from_service_error : ServiceError → ApiError
from_service_error e = service e

-- `map_err(ApiError::from)` of the three extractors, over what the axum extractor returns.
pub app_json {ℓ} : {T : Type ℓ} → Result T Rejection → Result T ApiError
app_json (ok value) = ok value
app_json (err r) = err (from_json_rejection r)

pub app_path {ℓ} : {T : Type ℓ} → Result T Rejection → Result T ApiError
app_path (ok value) = ok value
app_path (err r) = err (from_path_rejection r)

pub app_query {ℓ} : {T : Type ℓ} → Result T Rejection → Result T ApiError
app_query (ok value) = ok value
app_query (err r) = err (from_query_rejection r)
