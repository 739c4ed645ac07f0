-- ===== src/Errors/Api/Tests.antt =====
-- Sample errors and their responses.
use modular_rust_platform.Base.{false, some, ◌≡◌, refl}
use modular_rust_platform.Errors.Service.{conflict, internal}
use modular_rust_platform.Errors.Api.{
  service, is_client_error, into_response, describe, describe_service, attach_details, new,
  with_details,
}
use modular_rust_platform.Errors.Api.Disclosure.{into_response-scrub}

conflict-details :
    (into_response (service (conflict "name taken"))).0.body
    ≡ some (record (new 409 "CONFLICT" "Resource conflict") { details = some "name taken" })
unfolding into_response describe describe_service attach_details new with_details
conflict-details = refl

internal-body :
    (into_response (service (internal "password"))).0.body
    ≡ some (new 500 "INTERNAL_ERROR" "An internal error occurred")
unfolding into_response describe describe_service attach_details
internal-body = refl

internal-is_server_error :
    is_client_error (into_response (service (internal "password"))).0.status ≡ false
unfolding into_response describe describe_service
internal-is_server_error = refl

same-status :
    (into_response (service (conflict "a"))).0.status
    ≡ (into_response (service (conflict "b"))).0.status
unfolding into_response describe describe_service
same-status = refl

into_response-scrub_example :
    ((into_response (service (internal "password"))).0.status
      ≡ (into_response (service (internal ""))).0.status)
    × ((into_response (service (internal "password"))).0.body
        ≡ (into_response (service (internal ""))).0.body)
into_response-scrub_example =
    into_response-scrub (service (internal "password")) internal-is_server_error
