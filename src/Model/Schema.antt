-- ===== src/Model/Schema.antt =====
-- The tables that the modelled services share, and the state that their methods pass on.
use orion_auth_backend.Prelude.{ℕ, String, List}
use orion_auth_backend.Model.Client.{OauthClient}
use orion_auth_backend.Model.Tokens.{AccessToken, RefreshToken, AuthorizationCode}
use orion_auth_backend.Model.Flow.{AuthorizationRequest, Consent, DeviceCode, PushedRequest}
use orion_auth_backend.Model.Account.{User, Session, MfaMethod, ReauthToken}

-- model/revoked_jti.go
pub record RevokedJti : Type 0 where
  pub jti : String
  pub expires_at : ℕ

pub record Database : Type 0 where
  pub clients : List OauthClient
  pub users : List User
  pub auth_requests : List AuthorizationRequest
  pub pushed_requests : List PushedRequest
  pub auth_codes : List AuthorizationCode
  pub access_tokens : List AccessToken
  pub refresh_tokens : List RefreshToken
  pub consents : List Consent
  pub device_codes : List DeviceCode
  pub revoked_jtis : List RevokedJti
  pub sessions : List Session
  pub mfa_methods : List MfaMethod
  pub reauth_tokens : List ReauthToken

-- `draws` counts what was taken from the random generator, which no transaction gives back.
pub record State : Type 0 where
  pub db : Database
  pub open db use *
  pub draws : ℕ
