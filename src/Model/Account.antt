-- ===== src/Model/Account.antt =====
-- model/user.go (the fields that the modelled services read), model/session.go, model/mfa.go and
-- model/reauth_token.go.
use orion_auth_backend.Prelude.{ℕ, String, Bool, not, ◌&&◌, List, Option, ltb}

pub record User : Type 0 where
  pub id : ℕ
  pub email : String
  pub email_verified : Bool
  pub email_verify_token : Option String
  pub email_verify_expires_at : Option ℕ
  pub password_hash : Option String
  pub must_set_password : Bool
  pub password_reset_token : Option String
  pub password_reset_expires_at : Option ℕ
  pub display_name : Option String
  pub locked_until : Option ℕ
  pub failed_login_attempts : ℕ
  pub active : Bool

pub record Session : Type 0 where
  pub id : ℕ
  pub user_id : ℕ
  pub ip_address : Option String
  pub user_agent : Option String
  pub last_active_at : ℕ
  pub authenticated_at : ℕ
  pub revoked : Bool
  pub revoked_at : Option ℕ
  pub expires_at : ℕ
  pub created_at : ℕ
  pub extended : Bool
  pub cookie_token_hash : String
  -- The raw cookie, empty in every stored row (`gorm:"-"`).
  pub cookie_token : String

pub record MfaMethod : Type 0 where
  pub id : ℕ
  pub user_id : ℕ
  pub kind : String
  pub secret : String
  pub verified : Bool
  pub backup_codes : List String
  pub last_used_totp_step : ℕ

pub record ReauthToken : Type 0 where
  pub id : String
  pub user_id : ℕ
  pub session_id : ℕ
  pub method : String
  pub expires_at : ℕ
  pub used : Bool
  pub used_at : Option ℕ
  pub consumed_by : Option String

unfoldable pub reauth_token_is_valid : ℕ → ReauthToken → Bool
reauth_token_is_valid wall t = not t.used && ltb wall t.expires_at
