-- ===== src/Errors.antt =====
-- pkg/errors.go: the error constructors, with the code and the HTTP status that each one sets.
use orion_auth_backend.Prelude.{ℕ, String}

-- `invalid_request … account_selection_required` are an `OAuthError` of RFC 6749, with their
-- description; the rest are an `AppError` with its message. `database` stands for an error value
-- of the database driver, `panic` for a run-time panic (a nil dereference), `opa_error` for an error
-- of a policy's compilation or evaluation, with the policy's name.
pub data Error : Type 0 where
  invalid_request unauthorized_client access_denied unsupported_response_type : String → Error
  invalid_scope server_error unsupported_grant_type invalid_grant invalid_client : String → Error
  authorization_pending slow_down : Error
  expired_token login_required consent_required : String → Error
  interaction_required account_selection_required : String → Error
  bad_request not_found unauthorized forbidden conflict internal_error : String → Error
  too_many_requests account_locked email_not_verified : String → Error
  opa_error : String → Error
  database panic : Error

-- The StatusCode field.
pub status : Error → ℕ
status (invalid_request _) = 400
status (unauthorized_client _) = 403
status (access_denied _) = 403
status (unsupported_response_type _) = 400
status (invalid_scope _) = 400
status (server_error _) = 500
status (unsupported_grant_type _) = 400
status (invalid_grant _) = 400
status (invalid_client _) = 401
status authorization_pending = 400
status slow_down = 400
status (expired_token _) = 400
status (login_required _) = 400
status (consent_required _) = 400
status (interaction_required _) = 400
status (account_selection_required _) = 400
status (bad_request _) = 400
status (not_found _) = 404
status (unauthorized _) = 401
status (forbidden _) = 403
status (conflict _) = 409
status (internal_error _) = 500
status (too_many_requests _) = 429
status (account_locked _) = 403
status (email_not_verified _) = 403
status (opa_error _) = 500
status database = 500
status panic = 500
