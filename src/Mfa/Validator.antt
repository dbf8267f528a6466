-- ===== src/Mfa/Validator.antt =====
-- mfa/service.go as the MFAValidator of oauth/service.go: HasMFA and ValidateCode, which write no table
-- of the authorization flow.
use orion_auth_backend.Prelude.{ℕ, String, ◌≡◌, Option, none, some, arith}
use orion_auth_backend.Exec.{◌>>=◌}
use orion_auth_backend.Model.{MfaMethod, State}
use orion_auth_backend.World.{World}
use orion_auth_backend.Oauth.Service.{MfaValidator}
use orion_auth_backend.Mfa.{Totp, has_mfa, validate_code, validate_method, find_verified_by_user}

module _ (w : World) (totp : Totp) where
  pub has_mfa_keeps :
      (user : ℕ) (s : State) → (has_mfa w totp user s).1.auth_requests ≡ s.auth_requests
  unfolding has_mfa find_verified_by_user ◌>>=◌
  has_mfa_keeps user s = ground arith

  validate_method_keeps :
      (code : String) (m : Option MfaMethod) (s : State)
      → (validate_method w totp code m s).1.auth_requests ≡ s.auth_requests
  unfolding validate_method
  validate_method_keeps code none s = ground arith
  validate_method_keeps code (some m) s = ground arith

  pub validate_code_keeps :
      (user : ℕ) (code : String) (s : State)
      → (validate_code w totp user code s).1.auth_requests ≡ s.auth_requests
  unfolding validate_code
  validate_code_keeps user code s = ground arith

  unfoldable pub mfa_service : MfaValidator
  mfa_service = record {
    has_mfa = has_mfa w totp;
    validate_code = validate_code w totp;
    has_mfa_keeps = has_mfa_keeps;
    validate_code_keeps = validate_code_keeps;
  }
