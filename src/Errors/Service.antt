-- ===== src/Errors/Service.antt =====
-- crates/stano-common/src/service_error.rs and crates/stano-common/src/error.rs. The `anyhow::Error`
-- of an internal error is its text.
use Prim.Native.String.{◌++◌}
use modular_rust_platform.Base.{String}

pub data ServiceError : Type 0 where
  not_found : ServiceError
  invalid_input : String → ServiceError
  conflict : String → ServiceError
  unauthorized : ServiceError
  forbidden : ServiceError
  internal : String → ServiceError

pub data DomainError : Type 0 where
  invalid_input : String → DomainError
  business_rule_violation : String → DomainError

-- `Display`, from the `#[error(...)]` attributes.
pub display_service : ServiceError → String
display_service not_found = "Resource not found"
display_service (ServiceError.invalid_input msg) = "Invalid request: " ++ msg
display_service (conflict msg) = "Conflict: " ++ msg
display_service unauthorized = "Unauthorized"
display_service forbidden = "Forbidden"
display_service (internal cause) = "Internal error"

pub display_domain : DomainError → String
display_domain (DomainError.invalid_input msg) = "Invalid input: " ++ msg
display_domain (business_rule_violation msg) = "Business rule violation: " ++ msg

unfoldable pub domain_err_to_service : DomainError → ServiceError
domain_err_to_service (DomainError.invalid_input msg) = ServiceError.invalid_input msg
domain_err_to_service (business_rule_violation msg) = conflict msg
