-- ===== src/Oauth/Hybrid.antt =====
-- The hybrid flows of completeAuthorize, oauth/service.go: the tokens beside the code.
use orion_auth_backend.Prelude.{
  ℕ, ◌+◌, ◌*◌, String, false, Option, none, some, str_eq, deref_or, if◌then◌else◌,
}
use orion_auth_backend.Errors.{server_error}
use orion_auth_backend.Exec.{Exec, Result, ok, err, pure, or_raise, branch, ◌>>=◌, ◌>>◌}
use orion_auth_backend.Model.{OauthClient, AuthorizationRequest, AccessToken, State}
use orion_auth_backend.World.{second, generate}
use orion_auth_backend.Oauth.Scopes.{response_type_includes, compute_acr}
use orion_auth_backend.Oauth.Service.{Service, IdTokenClaims}
use orion_auth_backend.Oauth.Repository.{client_by_id, insert_access_token}

-- the fields of a hybrid response
pub record HybridTokens : Type 0 where
  pub access_token : String
  pub token_type : String
  pub expires_in : ℕ
  pub id_token : String

abbrev pub no_tokens : HybridTokens
no_tokens = record { access_token = ""; token_type = ""; expires_in = 0; id_token = "" }

abbrev text_or : String → Result String → String
text_or d (ok t) = t
text_or d (err _) = d

module _ (svc : Service) where
  abbrev pub hybrid_row : AuthorizationRequest → OauthClient → ℕ → ℕ → String → AccessToken
  hybrid_row req client user session hash = record {
    id = hash;
    client_id = client.id;
    user_id = some user;
    session_id = some session;
    refresh_token_id = none;
    scopes = req.scopes;
    audience = req.audience;
    jti = none;
    expires_at = svc.now + client.access_token_ttl * second;
    revoked = false;
    created_at = svc.wall;
  }

  -- the access token of a hybrid response
  unfoldable pub hybrid_access_token : AuthorizationRequest → ℕ → ℕ → Exec State HybridTokens
  hybrid_access_token req user session = do
    client ←
        or_raise (server_error "failed to look up client") (client_by_id svc.world req.client_id)
    raw ← generate svc.world (server_error "failed to generate access token")
    or_raise (server_error "failed to store access token")
        (insert_access_token svc.world (hybrid_row req client user session (svc.hash_token raw)))
    pure (record no_tokens {
      access_token = raw;
      token_type = "Bearer";
      expires_in = client.access_token_ttl;
    })

  abbrev hash_if : String → String
  hash_if t = if str_eq t "" then "" else svc.left_half t

  -- generateHybridIDToken of the claims that completeAuthorize fills in
  abbrev hybrid_claims :
      AuthorizationRequest → OauthClient → ℕ → (code access_token : String) → IdTokenClaims
  hybrid_claims req client user code access_token =
      let (acr, amr) = compute_acr req.auth_methods in
      record {
        user_id = user;
        client_id = req.client_id;
        scopes = req.scopes;
        nonce = deref_or "" req.nonce;
        auth_time = deref_or svc.now req.auth_time;
        at_hash = hash_if access_token;
        c_hash = svc.left_half code;
        s_hash = hash_if (deref_or "" req.state);
        ttl = client.id_token_ttl * second;
        requested_claims = "";
        acr = acr;
        amr = amr;
        subject_type = client.subject_type;
        sector_identifier = deref_or "" client.sector_identifier_uri;
        extra_claims = none;
        encryption_jwks_uri = "";
        encryption_alg = "";
        encryption_enc = "";
      }

  unfoldable pub hybrid_id_token :
      Option (IdTokenClaims → Result String)
      → AuthorizationRequest
      → ℕ
      → String
      → HybridTokens
      → Exec State HybridTokens
  hybrid_id_token none req user code tokens = pure tokens
  hybrid_id_token (some generate_id) req user code tokens = do
    client ←
        or_raise (server_error "failed to look up client") (client_by_id svc.world req.client_id)
    pure (record tokens {
      id_token = text_or "" (generate_id (hybrid_claims req client user code tokens.access_token));
    })

  -- the hybrid flows: the further tokens that the response type asks for
  unfoldable pub hybrid_tokens : AuthorizationRequest → ℕ → ℕ → String → Exec State HybridTokens
  hybrid_tokens req user session code = do
    tokens ←
        branch (response_type_includes req.response_type "token")
          (hybrid_access_token req user session) (pure no_tokens)
    branch (response_type_includes req.response_type "id_token")
        (hybrid_id_token svc.id_token_generator req user code tokens) (pure tokens)
