-- ===== src/Errors/Api/Disclosure.antt =====
-- What an error response tells its client.
use modular_rust_platform.Base.{
  String, true, false, some, if◌then◌else◌, ◌≡◌, refl, sym, ap, ◌∙◌, ◌==◌,
}
use modular_rust_platform.Errors.Service.{
  ServiceError, not_found, invalid_input, conflict, unauthorized, forbidden, internal, DomainError,
  business_rule_violation, domain_err_to_service,
}
use modular_rust_platform.Errors.Api.{
  StatusCode, is_client_error, ErrorResponse, ApiError, json_extraction, path_extraction,
  query_extraction, service, internal_error, describe_service, describe, into_response,
  logged_error, from_service_error,
}

-- The error with every text that it carries removed.
abbrev pub scrub_service : ServiceError → ServiceError
scrub_service not_found = not_found
scrub_service (invalid_input msg) = invalid_input ""
scrub_service (conflict msg) = conflict ""
scrub_service unauthorized = unauthorized
scrub_service forbidden = forbidden
scrub_service (internal cause) = internal ""

abbrev pub scrub : ApiError → ApiError
scrub (json_extraction status body_text rejection_type) = json_extraction status "" ""
scrub (path_extraction status body_text rejection_type) = path_extraction status "" ""
scrub (query_extraction status body_text rejection_type) = query_extraction status "" ""
scrub (service e) = service (scrub_service e)
scrub (internal_error msg) = internal_error ""

-- If the status is not a 4xx code, then the status and the body are the same for the error without
-- its texts: no message, cause or rejection text of a server error reaches the client.
pub into_response-scrub :
    (e : ApiError)
    → is_client_error (into_response e).0.status ≡ false
    → ((into_response e).0.status ≡ (into_response (scrub e)).0.status)
      × ((into_response e).0.body ≡ (into_response (scrub e)).0.body)
unfolding into_response
into_response-scrub (json_extraction status text kind) h = (refl, rw h)
into_response-scrub (path_extraction status text kind) h = (refl, rw h)
into_response-scrub (query_extraction status text kind) h = (refl, rw h)
into_response-scrub (service not_found) h = (refl, refl)
into_response-scrub (service (invalid_input msg)) h = cc
into_response-scrub (service (conflict msg)) h = cc
into_response-scrub (service unauthorized) h = (refl, refl)
into_response-scrub (service forbidden) h = (refl, refl)
into_response-scrub (service (internal cause)) h = (refl, refl)
into_response-scrub (internal_error msg) h = (refl, refl)

-- The kind of service error that a status stands for.
abbrev of_status : StatusCode → ServiceError
of_status status =
    if status == 404
    then not_found
    else if status == 400
    then invalid_input ""
    else if status == 409
    then conflict ""
    else if status == 401
    then unauthorized
    else if status == 403
    then forbidden
    else internal ""

of_status-describe : (e : ServiceError) → of_status (describe_service e).status ≡ scrub_service e
unfolding describe_service
of_status-describe not_found = refl
of_status-describe (invalid_input msg) = refl
of_status-describe (conflict msg) = refl
of_status-describe unauthorized = refl
of_status-describe forbidden = refl
of_status-describe (internal cause) = refl

-- Two service errors whose responses have the same status differ in their texts at most.
pub service-status_injective :
    (a b : ServiceError)
    → (into_response (service a)).0.status ≡ (into_response (service b)).0.status
    → scrub_service a ≡ scrub_service b
unfolding into_response
service-status_injective a b e = sym (of_status-describe a) ∙ ap of_status e ∙ of_status-describe b

-- The message of a domain error.
abbrev pub message_of : DomainError → String
message_of (DomainError.invalid_input msg) = msg
message_of (business_rule_violation msg) = msg

-- A domain error that a service passes on becomes a client error whose details are its message, and
-- the error logging middleware finds it in the response.
pub domain_error-response :
    (d : DomainError)
    → (r : ErrorResponse) × ((into_response (service (domain_err_to_service d))).0.body ≡ some r)
      × (is_client_error r.status ≡ true)
      × (r.details ≡ some (message_of d))
      × (logged_error (into_response (service (domain_err_to_service d))).0
          ≡ some (service (domain_err_to_service d)))
unfolding into_response domain_err_to_service logged_error
domain_error-response (DomainError.invalid_input msg) = (_, refl, refl, refl, refl)
domain_error-response (business_rule_violation msg) = (_, refl, refl, refl, refl)

pub unauthorized-status : (into_response (from_service_error unauthorized)).0.status ≡ 401
unfolding into_response describe describe_service from_service_error
unauthorized-status = refl

pub forbidden-status : (into_response (from_service_error forbidden)).0.status ≡ 403
unfolding into_response describe describe_service from_service_error
forbidden-status = refl
