-- ===== src/Oauth/Refresh.antt =====
-- ExchangeRefreshToken of oauth/service.go.
pub mod Laws
pub mod Once
use orion_auth_backend.Prelude.{
  ℕ, String, Bool, not, List, [], ◌∷◌, Option, none, some, ltb, ◌==◌, if◌then◌else◌,
}
use orion_auth_backend.Errors.{server_error, invalid_grant, invalid_scope, unauthorized_client}
use orion_auth_backend.Exec.{
  Exec, Result, ok, err, pure, raise, lift, or_raise, found, optional, fail_if, when, ignore, ◌>>=◌,
  ◌>>◌,
}
use orion_auth_backend.Model.{OauthClient, RefreshToken, State, has_grant_type, was_rotated}
use orion_auth_backend.World.{World}
use orion_auth_backend.Oauth.Scopes.{parse_space_delimited, filter_scopes}
use orion_auth_backend.Oauth.Service.{Service, load_roles, consult, judge_scopes, refresh}
use orion_auth_backend.Oauth.Repository.{
  user_by_id, refresh_token_by_id, rotate, revoke_family, revoke_by_refresh_token, transaction,
}
use orion_auth_backend.Oauth.Issue.{TokenResponse, IssueOpts, issue_tokens}

abbrev pub within_grant : List String → Result (List String)
within_grant [] = err (invalid_scope "requested scopes exceed original grant")
within_grant (s ∷ scopes) = ok (s ∷ scopes)

-- no scope parameter keeps the scopes of the token
abbrev pub downscope : List String → List String → Result (List String)
downscope [] held = ok held
downscope (r ∷ requested) held = within_grant (filter_scopes (r ∷ requested) held)

module _ (svc : Service) where
  -- the checks on the row, in order; the last one is the reuse detection
  unfoldable pub check_refresh : OauthClient → RefreshToken → Exec State Unit
  unfolding ◌>>=◌ was_rotated revoke_family
  check_refresh client rt = do
    fail_if (not (rt.client_id == client.id)) (invalid_grant "token not issued to this client")
    fail_if (ltb rt.expires_at svc.now) (invalid_grant "refresh token expired")
    fail_if rt.revoked (invalid_grant "refresh token revoked")
    when (was_rotated rt) (do
      ignore (revoke_family svc.world rt.family_id)
      raise (invalid_grant "token reuse detected"))

  -- the policy step
  unfoldable pub refresh_policy :
      OauthClient → RefreshToken → List String → List String → Exec State (List String)
  unfolding ◌>>=◌ user_by_id
  refresh_policy client rt requested granted = elim svc.policy_evaluator [
    | none ↦ pure granted
    | some evaluate ↦ do
      u ← optional (user_by_id svc.world rt.user_id)
      let (roles, perms) = load_roles svc.role_provider rt.user_id
      lift (
          judge_scopes granted (
            consult (some evaluate) (refresh u client roles perms requested granted rt.session_id)))
  ]

  abbrev pub refresh_opts : RefreshToken → IssueOpts
  refresh_opts rt = record {
    nonce = "";
    auth_time = some svc.now;
    audience = rt.audience;
    requested_claims = "";
    acr = "";
    amr = [];
  }

  -- the body of the transaction
  unfoldable pub rotate_and_issue : OauthClient → String → List String → Exec State TokenResponse
  rotate_and_issue client hash requested = do
    rt ← found (invalid_grant "invalid refresh token") (refresh_token_by_id svc.world hash)
    check_refresh client rt
    granted ← lift (downscope requested rt.scopes)
    scopes ← refresh_policy client rt requested granted
    or_raise (server_error "failed to rotate refresh token") (rotate svc.world hash)
    ignore (revoke_by_refresh_token svc.world hash)
    issue_tokens svc client rt.user_id (some rt.session_id) scopes (refresh_opts rt)

  unfoldable pub exchange_refresh_token :
      OauthClient → (token scope : String) → Exec State TokenResponse
  unfolding has_grant_type transaction
  exchange_refresh_token client token scope = do
    fail_if (not (has_grant_type client "refresh_token"))
        (unauthorized_client "client is not authorized for refresh_token grant")
    transaction svc.world
        (rotate_and_issue client (svc.hash_token token) (parse_space_delimited scope))
