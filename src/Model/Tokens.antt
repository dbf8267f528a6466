-- ===== src/Model/Tokens.antt =====
-- model/access_token.go, model/refresh_token.go, model/authorization_code.go. The argument `wall`
-- of a test is the `time.Now()` that the Go method reads.
use orion_auth_backend.Prelude.{
  ℕ, String, Bool, false, not, ◌&&◌, List, Option, none, some, str_eq, ltb, is_some,
}

pub record AccessToken : Type 0 where
  pub id : String
  pub client_id : ℕ
  pub user_id : Option ℕ
  pub session_id : Option ℕ
  pub refresh_token_id : Option String
  pub scopes : List String
  pub audience : Option String
  pub jti : Option String
  pub expires_at : ℕ
  pub revoked : Bool
  pub created_at : ℕ

unfoldable pub access_token_is_valid : ℕ → AccessToken → Bool
access_token_is_valid wall t = not t.revoked && ltb wall t.expires_at

pub record RefreshToken : Type 0 where
  pub id : String
  pub client_id : ℕ
  pub user_id : ℕ
  pub session_id : ℕ
  pub scopes : List String
  pub audience : Option String
  pub family_id : ℕ
  pub parent_id : Option String
  pub expires_at : ℕ
  pub revoked : Bool
  pub rotated_at : Option ℕ
  pub created_at : ℕ

unfoldable pub was_rotated : RefreshToken → Bool
was_rotated t = is_some t.rotated_at

pub record AuthorizationCode : Type 0 where
  pub code_hash : String
  pub client_id : ℕ
  pub user_id : ℕ
  pub redirect_uri : String
  pub scopes : List String
  pub code_challenge : Option String
  pub code_challenge_method : Option String
  pub nonce : Option String
  pub session_id : Option ℕ
  pub audience : Option String
  pub claims_param : Option String
  pub auth_time : Option ℕ
  pub auth_methods : List String
  pub expires_at : ℕ
  pub used : Bool
  pub created_at : ℕ

unfoldable pub code_is_valid : ℕ → AuthorizationCode → Bool
code_is_valid wall c = not c.used && ltb wall c.expires_at

-- `*p != ""` for a pointer that is not nil
abbrev not_blank : Option String → Bool
not_blank none = false
not_blank (some s) = not (str_eq s "")

unfoldable pub has_pkce : AuthorizationCode → Bool
has_pkce c = not_blank c.code_challenge
