-- ===== src/Model/Flow.antt =====
-- model/authorization_request.go, model/consent.go, model/device_code.go.
use orion_auth_backend.Prelude.{
  ℕ, String, Bool, true, not, ◌&&◌, List, [], ◌∷◌, Option, contains, ltb,
}

pub record AuthorizationRequest : Type 0 where
  pub id : ℕ
  pub client_id : ℕ
  pub redirect_uri : String
  pub response_type : String
  pub scopes : List String
  pub state : Option String
  pub nonce : Option String
  pub code_challenge : Option String
  pub code_challenge_method : Option String
  pub user_id : Option ℕ
  pub authenticated : Bool
  pub consent_given : Bool
  pub audience : Option String
  pub prompt : Option String
  pub max_age : Option ℕ
  pub display : Option String
  pub ui_locales : Option String
  pub claims_locales : Option String
  pub acr_values : Option String
  pub login_hint : Option String
  pub id_token_hint : Option String
  pub claims_param : Option String
  pub auth_time : Option ℕ
  pub response_mode : Option String
  pub auth_methods : List String
  pub remember_me : Bool
  pub expires_at : ℕ

unfoldable pub request_is_expired : ℕ → AuthorizationRequest → Bool
request_is_expired wall r = ltb r.expires_at wall

unfoldable pub is_ready : ℕ → AuthorizationRequest → Bool
unfolding request_is_expired
is_ready wall r = r.authenticated && r.consent_given && not (request_is_expired wall r)

pub record Consent : Type 0 where
  pub id : ℕ
  pub user_id : ℕ
  pub client_id : ℕ
  pub scopes : List String
  pub granted_at : ℕ
  pub revoked_at : Option ℕ

-- the loop of CoversScopes
unfoldable pub covers : List String → List String → Bool
covers scopes [] = true
covers scopes (r ∷ requested) = contains scopes r && covers scopes requested

unfoldable pub covers_scopes : Consent → List String → Bool
covers_scopes c requested = covers c.scopes requested

-- The values of the status column.
pub data DeviceStatus : Type 0 where
  pending denied authorized consumed : DeviceStatus

pub record DeviceCode : Type 0 where
  pub device_code_hash : String
  pub user_code : String
  pub client_id : ℕ
  pub scopes : List String
  pub user_id : Option ℕ
  pub session_id : Option ℕ
  pub audience : Option String
  pub status : DeviceStatus
  pub interval_secs : ℕ
  pub expires_at : ℕ
  pub last_polled_at : Option ℕ
  pub created_at : ℕ

unfoldable pub device_code_is_expired : ℕ → DeviceCode → Bool
device_code_is_expired wall d = ltb d.expires_at wall

-- model/pushed_authorization_request.go
pub record PushedRequest : Type 0 where
  pub request_uri : String
  pub client_id : ℕ
  pub params : String
  pub expires_at : ℕ
  pub created_at : ℕ
