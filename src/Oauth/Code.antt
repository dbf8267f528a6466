-- ===== src/Oauth/Code.antt =====
-- ExchangeAuthorizationCode of oauth/service.go, with verifyPKCE.
pub mod Laws
use orion_auth_backend.Prelude.{
  ℕ, ◌+◌, ◌*◌, String, Bool, true, false, not, ◌&&◌, ◌||◌, List, [], ◌∷◌, Option, none, some, ltb,
  ◌==◌, str_eq, is_some, deref_or, if◌then◌else◌,
}
use orion_auth_backend.Errors.{
  Error, access_denied, server_error, invalid_grant, invalid_request, invalid_scope,
  unauthorized_client, panic,
}
use orion_auth_backend.Exec.{
  Exec, Result, ok, err, pure, raise, lift, or_raise, found, optional, require, fail_if, when,
  branch, ignore, ◌>>=◌, ◌>>◌,
}
use orion_auth_backend.Model.{
  OauthClient, ApiResource, AccessToken, RefreshToken, AuthorizationCode, State, User,
  emits_jwt_access_tokens, has_grant_type, validate_scopes, has_pkce, code_is_valid, was_rotated,
}
use orion_auth_backend.World.{World, second, generate}
use orion_auth_backend.Oauth.Scopes.{compute_acr, parse_space_delimited, filter_scopes, join_scopes}
use orion_auth_backend.Oauth.Modify.{read_modify_scopes}
use orion_auth_backend.Oauth.Service.{
  Service, PolicyInput, PolicyResult, load_roles, consult, modifications, refresh,
  ResourceValidator,
}
use orion_auth_backend.Oauth.Repository.{
  user_by_id, auth_code_by_hash, mark_used, revoke_by_session, revoke_refresh_by_session,
  refresh_token_by_id, rotate, revoke_family, revoke_by_refresh_token, transaction,
  insert_access_token,
}
use orion_auth_backend.Oauth.Issue.{TokenResponse, IssueOpts, Minted, mint, issue_tokens}

abbrev pub code_opts : AuthorizationCode → IssueOpts
code_opts c =
    let (acr, amr) = compute_acr c.auth_methods in
    record {
      nonce = deref_or "" c.nonce;
      auth_time = some (deref_or c.created_at c.auth_time);
      audience = c.audience;
      requested_claims = deref_or "" c.claims_param;
      acr = acr;
      amr = amr;
    }

module _ (svc : Service) where
  unfoldable pub verify_pkce : String → String → Bool
  verify_pkce verifier challenge = str_eq (svc.s256 verifier) challenge

  -- the PKCE branch; a challenge that is there is not nil
  unfoldable pub check_pkce : OauthClient → AuthorizationCode → String → Exec State Unit
  unfolding ◌>>=◌ verify_pkce has_pkce
  check_pkce client c verifier =
      branch (has_pkce c)
        (do
          fail_if (str_eq verifier "") (invalid_grant "code_verifier required")
          fail_if (not (verify_pkce verifier (deref_or "" c.code_challenge)))
              (invalid_grant "PKCE verification failed"))
        (fail_if client.is_public (invalid_request "PKCE required for public clients"))

  -- the branch of a code that is already used
  replay_detected : AuthorizationCode → Exec State Unit
  unfolding ◌>>=◌ revoke_by_session revoke_refresh_by_session
  replay_detected c = elim c.session_id [
    | none ↦ raise (invalid_grant "authorization code already used")
    | some session ↦ do
      ignore (revoke_by_session svc.world session)
      ignore (revoke_refresh_by_session svc.world session)
      raise (invalid_grant "authorization code already used")
  ]

  -- the checks on the row, in order
  unfoldable pub check_code :
      OauthClient → AuthorizationCode → (redirect_uri verifier : String) → Exec State Unit
  unfolding ◌>>=◌ code_is_valid replay_detected check_pkce
  check_code client c redirect_uri verifier = do
    fail_if (not (code_is_valid svc.wall c))
        (invalid_grant "authorization code expired or already used")
    when c.used (replay_detected c)
    fail_if (not (c.client_id == client.id)) (invalid_grant "client mismatch")
    fail_if (not (str_eq c.redirect_uri redirect_uri)) (invalid_grant "redirect_uri mismatch")
    check_pkce client c verifier

  -- the body of the transaction
  unfoldable pub redeem_code :
      OauthClient → String → (redirect_uri verifier : String) → Exec State TokenResponse
  redeem_code client hash redirect_uri verifier = do
    c ← found (invalid_grant "invalid authorization code") (auth_code_by_hash svc.world hash)
    check_code client c redirect_uri verifier
    or_raise (server_error "failed to consume authorization code") (mark_used svc.world hash)
    issue_tokens svc client c.user_id c.session_id c.scopes (code_opts c)

  unfoldable pub exchange_authorization_code :
      OauthClient → (code redirect_uri verifier : String) → Exec State TokenResponse
  unfolding transaction
  exchange_authorization_code client code redirect_uri verifier =
      transaction svc.world (redeem_code client (svc.hash_token code) redirect_uri verifier)
