-- ===== src/Oauth/Introspect.antt =====
-- oauth/introspect.go: token introspection, RFC 7662.
pub mod Laws
use orion_auth_backend.Prelude.{
  ℕ, ◌/◌, String, Bool, true, false, not, ◌&&◌, ◌||◌, List, Option, none, some, ltb, ◌==◌, str_eq,
  deref_or, if◌then◌else◌, is_some,
}
use orion_auth_backend.Errors.{Error, invalid_request}
use orion_auth_backend.Exec.{
  Exec, Result, ok, err, pure, raise, optional, fail_if, branch, ◌>>=◌, ◌>>◌,
}
use orion_auth_backend.Model.{
  OauthClient, AccessToken, RefreshToken, State, User, access_token_is_valid, was_rotated,
}
use orion_auth_backend.World.{World, second}
use orion_auth_backend.Oauth.Scopes.{parse_space_delimited, join_scopes}
use orion_auth_backend.Oauth.Service.{
  Service, PolicyResult, JwtSigner, ValidatedClaims, consult, introspect,
}
use orion_auth_backend.Oauth.Repository.{
  refresh_token_by_id, access_token_by_id, user_by_id, jti_is_revoked,
}
use orion_auth_backend.Oauth.Revoke.{hints, jwt_claims, only_if}

pub record IntrospectResponse : Type 0 where
  pub active : Bool
  pub scope : String
  pub client_id : String
  pub username : String
  pub token_type : String
  pub exp : ℕ
  pub iat : ℕ
  pub sub : String
  pub iss : String
  pub aud : String

abbrev pub inactive : IntrospectResponse
inactive = record {
  active = false;
  scope = "";
  client_id = "";
  username = "";
  token_type = "";
  exp = 0;
  iat = 0;
  sub = "";
  iss = "";
  aud = "";
}

abbrev email_of : Option User → String
email_of none = ""
email_of (some u) = u.email

abbrev pub denies : Option PolicyResult → Bool
denies none = false
denies (some r) = r.deny

module _ (svc : Service) where
  unfoldable pub denied_by_introspect_policy :
      (kind : String) → ℕ → Option ℕ → List String → Option String → ℕ → Bool
  unfolding consult
  denied_by_introspect_policy kind client user scopes audience requester =
      denies (consult svc.policy_evaluator (introspect kind client user scopes audience requester))

  -- the e-mail address, shown only to the client that owns the token
  unfoldable pub username : ℕ → ℕ → Option ℕ → Exec State String
  unfolding ◌>>=◌ user_by_id
  username owner requester none = pure ""
  username owner requester (some user) =
      branch (owner == requester) (do u ← optional (user_by_id svc.world user); pure (email_of u))
        (pure "")

  abbrev text_of : Option ℕ → String
  text_of none = ""
  text_of (some id) = svc.uuid_text id

  abbrev pub access_response : AccessToken → String → String → IntrospectResponse
  access_response at issuer name = record {
    active = true;
    scope = join_scopes at.scopes;
    client_id = svc.uuid_text at.client_id;
    username = name;
    token_type = "Bearer";
    exp = at.expires_at / second;
    iat = at.created_at / second;
    sub = text_of at.user_id;
    iss = issuer;
    aud = deref_or "" at.audience;
  }

  unfoldable pub introspect_access_token : AccessToken → String → ℕ → Exec State IntrospectResponse
  unfolding ◌>>=◌ username denied_by_introspect_policy access_token_is_valid
  introspect_access_token at issuer requester =
      branch
        (not (access_token_is_valid svc.wall at)
          || denied_by_introspect_policy "access_token" at.client_id at.user_id at.scopes
              at.audience requester)
        (pure inactive)
        (do
          name ← username at.client_id requester at.user_id
          pure (access_response at issuer name))

  abbrev pub refresh_response : RefreshToken → String → IntrospectResponse
  refresh_response rt issuer = record {
    active = true;
    scope = join_scopes rt.scopes;
    client_id = svc.uuid_text rt.client_id;
    username = "";
    token_type = "refresh_token";
    exp = rt.expires_at / second;
    iat = rt.created_at / second;
    sub = svc.uuid_text rt.user_id;
    iss = issuer;
    aud = deref_or "" rt.audience;
  }

  unfoldable pub introspect_refresh_token : RefreshToken → String → ℕ → IntrospectResponse
  unfolding was_rotated denied_by_introspect_policy
  introspect_refresh_token rt issuer requester =
      if rt.revoked || was_rotated rt || ltb rt.expires_at svc.now
      then inactive
      else if denied_by_introspect_policy "refresh_token" rt.client_id (some rt.user_id) rt.scopes
          rt.audience requester
      then inactive
      else refresh_response rt issuer

  -- `a != ""` of a claim that is a string
  abbrev non_blank_claim : Option String → Option String
  non_blank_claim none = none
  non_blank_claim (some a) = if str_eq a "" then none else some a

  -- the subject, unless it is the client itself or no UUID
  abbrev pub subject_user : String → Option String → Option ℕ
  subject_user client none = none
  subject_user client (some sub) =
      if str_eq sub "" || str_eq sub client then none else svc.parse_uuid sub

  abbrev pub jwt_response : ValidatedClaims → String → String → IntrospectResponse
  jwt_response claims issuer name = record {
    active = true;
    scope = deref_or "" claims.scope;
    client_id = deref_or "" claims.client_id;
    username = name;
    token_type = "Bearer";
    exp = deref_or 0 claims.exp;
    iat = deref_or 0 claims.iat;
    sub = deref_or "" claims.sub;
    iss = issuer;
    aud = deref_or "" (non_blank_claim claims.aud);
  }

  abbrev denied_jti : Result Bool → Bool
  denied_jti (ok b) = b
  denied_jti (err _) = false

  unfoldable pub introspect_jwt : ValidatedClaims → String → ℕ → Exec State IntrospectResponse
  unfolding ◌>>=◌ jti_is_revoked username denied_by_introspect_policy
  introspect_jwt claims issuer requester = do
    let client_text = deref_or "" claims.client_id
    let owner = deref_or 0 (svc.parse_uuid client_text)
    let user = subject_user client_text claims.sub
    revoked ← λ s. (ok (denied_jti (jti_is_revoked svc.world (deref_or "" claims.jti) s).0), s)
    branch
        (revoked
          || denied_by_introspect_policy "access_token" owner user
              (parse_space_delimited (deref_or "" claims.scope)) (non_blank_claim claims.aud)
              requester)
        (pure inactive)
        (do name ← username owner requester user; pure (jwt_response claims issuer name))

  unfoldable pub introspect_by_hash :
      (hash hint issuer : String) → ℕ → Exec State IntrospectResponse
  introspect_by_hash hash hint issuer requester = do
    at ← optional (only_if (hints "access_token" hint) (access_token_by_id svc.world hash))
    elim at [
      | some row ↦ introspect_access_token row issuer requester
      | none ↦ do
        rt ← optional (only_if (hints "refresh_token" hint) (refresh_token_by_id svc.world hash))
        elim rt [
          | some row ↦ pure (introspect_refresh_token row issuer requester)
          | none ↦ pure inactive
        ]
    ]

  unfoldable pub introspect_token : (token hint issuer : String) → ℕ → Exec State IntrospectResponse
  introspect_token token hint issuer requester = do
    fail_if (str_eq token "") (invalid_request "missing token")
    elim (jwt_claims svc.jwt_signer token hint) [
      | some claims ↦ introspect_jwt claims issuer requester
      | none ↦ introspect_by_hash (svc.hash_token token) hint issuer requester
    ]
