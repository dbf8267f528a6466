-- ===== src/Oauth/Credentials.antt =====
-- ExchangeClientCredentials of oauth/service.go.
pub mod Laws
use orion_auth_backend.Prelude.{
  ℕ, ◌+◌, ◌*◌, String, Bool, true, false, not, List, [], ◌∷◌, Option, none, some, str_eq,
  if◌then◌else◌,
}
use orion_auth_backend.Errors.{Error, panic, server_error, invalid_scope, unauthorized_client}
use orion_auth_backend.Exec.{Exec, Result, ok, err, pure, lift, or_raise, fail_if, ◌>>=◌, ◌>>◌}
use orion_auth_backend.Model.{
  OauthClient, ApiResource, AccessToken, State, has_grant_type, validate_scopes,
}
use orion_auth_backend.World.{World, second}
use orion_auth_backend.Oauth.Scopes.{parse_space_delimited, join_scopes}
use orion_auth_backend.Oauth.Service.{Service, ResourceValidator}
use orion_auth_backend.Oauth.Repository.{insert_access_token}
use orion_auth_backend.Oauth.Issue.{TokenResponse, Minted, mint}

-- What the audience decides: the scopes, the audience column, the lifetime and the resource.
pub record Target : Type 0 where
  pub scopes : List String
  pub audience : Option String
  pub ttl : ℕ
  pub resource : Option ApiResource

abbrev pub no_target : OauthClient → List String → Target
no_target client requested = record {
  scopes = validate_scopes client requested;
  audience = none;
  ttl = client.access_token_ttl;
  resource = none;
}

abbrev pub target_of : String → ApiResource → Result (List String) → Result Target
target_of audience res (err e) = err e
target_of audience res (ok []) = err (invalid_scope "client has no permissions for this resource")
target_of audience res (ok (s ∷ scopes)) = ok (record {
  scopes = s ∷ scopes;
  audience = some audience;
  ttl = res.access_token_ttl;
  resource = some res;
})

-- a validator that returns (nil, nil) would be dereferenced
abbrev pub target_in :
    ResourceValidator → ℕ → String → List String → Result (Option ApiResource) → Result Target
target_in v client audience requested (err e) = err e
target_in v client audience requested (ok none) = err panic
target_in v client audience requested (ok (some res)) =
    target_of audience res (v.validate_client_scopes client res.id requested)

unfoldable pub resolve_target :
    Option ResourceValidator → OauthClient → String → List String → Result Target
resolve_target none client audience requested = ok (no_target client requested)
resolve_target (some v) client audience requested =
    if str_eq audience ""
    then ok (no_target client requested)
    else target_in v client.id audience requested (v.validate_audience audience)

module _ (svc : Service) where
  abbrev pub credentials_row : OauthClient → Target → Minted → AccessToken
  credentials_row client target m = record {
    id = m.id;
    client_id = client.id;
    user_id = none;
    session_id = none;
    refresh_token_id = none;
    scopes = target.scopes;
    audience = target.audience;
    jti = m.jti;
    expires_at = svc.now + target.ttl * second;
    revoked = false;
    created_at = svc.wall;
  }

  unfoldable pub exchange_client_credentials :
      OauthClient → (scope audience : String) → Exec State TokenResponse
  exchange_client_credentials client scope audience = do
    fail_if client.is_public
        (unauthorized_client "public clients cannot use client_credentials grant")
    fail_if (not (has_grant_type client "client_credentials"))
        (unauthorized_client "client is not authorized for client_credentials grant")
    target ←
        lift (resolve_target svc.resource_validator client audience (parse_space_delimited scope))
    m ← mint svc none client.id target.scopes audience target.ttl none target.resource
    or_raise (server_error "failed to store access token")
        (insert_access_token svc.world (credentials_row client target m))
    pure (record {
      access_token = m.raw;
      token_type = "Bearer";
      expires_in = target.ttl;
      refresh_token = "";
      id_token = "";
      scope = join_scopes target.scopes;
    })
