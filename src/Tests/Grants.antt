-- ===== src/Tests/Grants.antt =====
-- The grants on the sample tables.
use orion_auth_backend.Prelude.{
  ℕ, String, ◌≡◌, ◌≢◌, refl, List, [], ◌∷◌, Option, some, none, true, false, All, first,
}
use orion_auth_backend.Errors.{invalid_grant}
use orion_auth_backend.Exec.{ok, err, ◌>>=◌}
use orion_auth_backend.Model.{State, pending, AuthorizationCode, RefreshToken}
use orion_auth_backend.Oauth.Repository
use orion_auth_backend.Oauth.Repository.{transaction, is_text}
use orion_auth_backend.Oauth.Scopes
use orion_auth_backend.Oauth.Issue
use orion_auth_backend.Oauth.Issue.{TokenResponse, IssueOpts, issue_tokens}
use orion_auth_backend.Oauth.Code
use orion_auth_backend.Oauth.Code.{exchange_authorization_code}
use orion_auth_backend.Oauth.Code.Laws.{
  Redeemed, hash_is, exchange_authorization_code-Redeemed, used_code_rejected, code_redeemed_once,
}
use orion_auth_backend.Oauth.Refresh
use orion_auth_backend.Oauth.Refresh.{exchange_refresh_token}
use orion_auth_backend.Oauth.Refresh.Laws.{Rotated, exchange_refresh_token-Rotated}
use orion_auth_backend.Oauth.Refresh.Once.{refresh_token_rotated_once}
use orion_auth_backend.Tests.Sample.{
  sample_service, web_client, tables_at, sample_code, sample_refresh,
}

abbrev callback : String
callback = "https://web.example/cb"

abbrev redeemed : State
redeemed =
    (exchange_authorization_code sample_service web_client "code" callback "verifier"
      (tables_at pending)).1

abbrev tokens_for : String → TokenResponse
tokens_for scope = record {
  access_token = "first";
  token_type = "Bearer";
  expires_in = 3600;
  refresh_token = "second";
  id_token = "";
  scope = scope;
}

code_redeems :
    exchange_authorization_code sample_service web_client "code" callback "verifier"
      (tables_at pending)
    ≡ (ok (tokens_for "openid read"), redeemed)
unfolding exchange_authorization_code Code.redeem_code ◌>>=◌ Repository.auth_code_by_hash first
    Code.check_code Repository.mark_used issue_tokens Issue.issuance_grant Issue.mint
    Issue.resolve_resource Issue.store_tokens orion_auth_backend.Prelude.any Issue.id_token
    Scopes.join_scopes Issue.user_scopes
code_redeems = refl

exchange_authorization_code-Redeemed_example :
    Redeemed sample_service web_client "code" callback "verifier"
      (tables_at pending)
      redeemed
      (tokens_for "openid read")
exchange_authorization_code-Redeemed_example =
    exchange_authorization_code-Redeemed sample_service web_client "code" callback "verifier"
      (tables_at pending) redeemed (tokens_for "openid read") code_redeems

code_redeemed_once_example :
    (exchange_authorization_code sample_service web_client "code" callback "verifier" redeemed).0
    ≢ ok (tokens_for "read")
code_redeemed_once_example =
    code_redeemed_once sample_service web_client web_client "code" callback "verifier" callback
      "verifier" (tables_at pending) redeemed (tokens_for "openid read") (tokens_for "read")
      code_redeems

abbrev used_code : AuthorizationCode
used_code = record sample_code { used = true }

abbrev replayed : State
replayed = record (tables_at pending) {
  db = record (tables_at pending).db { auth_codes = used_code ∷ [] };
}

used_code_found : first (hash_is "code") replayed.auth_codes ≡ some used_code
unfolding first
used_code_found = refl

used_code_rejected_example :
    (exchange_authorization_code sample_service web_client "code" callback "verifier" replayed).0
      ≡ err (invalid_grant "authorization code expired or already used")
    × ((exchange_authorization_code sample_service web_client "code" callback "verifier"
          replayed).1.db
        ≡ replayed.db)
used_code_rejected_example =
    used_code_rejected sample_service web_client "code" callback "verifier" replayed used_code refl
      used_code_found refl

abbrev rotated : State
rotated = (exchange_refresh_token sample_service web_client "refresh" "read" (tables_at pending)).1

refresh_rotates :
    exchange_refresh_token sample_service web_client "refresh" "read" (tables_at pending)
    ≡ (ok (tokens_for "read"), rotated)
unfolding exchange_refresh_token ◌>>=◌ Refresh.rotate_and_issue Repository.refresh_token_by_id first
    Refresh.check_refresh Scopes.parse_space_delimited Scopes.filter_scopes Refresh.refresh_policy
    Repository.rotate issue_tokens Issue.issuance_grant Issue.mint Issue.resolve_resource
    Issue.store_tokens orion_auth_backend.Prelude.any Repository.revoke_by_refresh_token
    orion_auth_backend.Prelude.update_where Issue.id_token Scopes.join_scopes Issue.user_scopes
refresh_rotates = refl

exchange_refresh_token-Rotated_example :
    Rotated sample_service web_client "refresh"
      ("read" ∷ [])
      (tables_at pending)
      rotated
      (tokens_for "read")
unfolding Scopes.parse_space_delimited
exchange_refresh_token-Rotated_example =
    exchange_refresh_token-Rotated sample_service web_client "refresh" "read" (tables_at pending)
      rotated (tokens_for "read") refresh_rotates

refresh_token_rotated_once_example :
    (exchange_refresh_token sample_service web_client "refresh" "" rotated).0
    ≢ ok (tokens_for "openid")
refresh_token_rotated_once_example =
    refresh_token_rotated_once sample_service web_client web_client "refresh" "read" ""
      (tables_at pending) rotated (tokens_for "read") (tokens_for "openid") refresh_rotates

abbrev rotated_token : RefreshToken
rotated_token = record sample_refresh { rotated_at = some 90 }

abbrev reused : State
reused = record (tables_at pending) {
  db = record (tables_at pending).db { refresh_tokens = rotated_token ∷ [] };
}
