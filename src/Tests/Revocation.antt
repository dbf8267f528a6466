-- ===== src/Tests/Revocation.antt =====
-- Revocation and introspection on the sample tables.
use orion_auth_backend.Prelude.{
  ℕ, zero, suc, ◌<◌, String, ◌≡◌, ◌≢◌, refl, ap, Bool, true, false, List, [], ◌∷◌, Option, none,
  some, first, All, arith, IsSubset, ◌⊎◌, eq_iff, false≢true, contains, ◌||◌, ◌==◌,
}
use orion_auth_backend.Exec.{ok, ◌>>=◌}
use orion_auth_backend.Model.{State, pending, AccessToken, RefreshToken, OauthClient}
use orion_auth_backend.Oauth.Repository
use orion_auth_backend.Oauth.Scopes
use orion_auth_backend.Oauth.Scopes.{parse_space_delimited, join_scopes, union_scopes}
use orion_auth_backend.Oauth.Issue
use orion_auth_backend.Oauth.Issue.{TokenResponse, IssueOpts, issue_tokens}
use orion_auth_backend.Oauth.Refresh
use orion_auth_backend.Oauth.Refresh.{exchange_refresh_token}
use orion_auth_backend.Oauth.Refresh.Laws.{id_is}
use orion_auth_backend.Oauth.Revoke.{jwt_claims, revoke}
use orion_auth_backend.Oauth.Revoke.Laws.{
  seen_refresh, seen_access, revoke_foreign, revoke_spares_successor,
}
use orion_auth_backend.Oauth.Repository.{revoke_at}
use orion_auth_backend.Oauth.Introspect
use orion_auth_backend.Oauth.Introspect.{IntrospectResponse, introspect_token, inactive}
use orion_auth_backend.Oauth.Introspect.Laws.{IsActiveAccess, IsActiveRefresh, introspect_token_lem}
use orion_auth_backend.Tests.Sample.{sample_service, web_client, tables_at, sample_refresh}

abbrev tables : State
tables = tables_at pending

abbrev read_only : List String
read_only = "read" ∷ []

abbrev read_tokens : TokenResponse
read_tokens = record {
  access_token = "first";
  token_type = "Bearer";
  expires_in = 3600;
  refresh_token = "second";
  id_token = "";
  scope = "read";
}

abbrev other_client : OauthClient
other_client = record web_client { id = 8 }

no_jwt : (token : String) → jwt_claims sample_service.jwt_signer token "" ≡ none
unfolding jwt_claims
no_jwt token = refl

refresh_seen : seen_refresh sample_service "refresh" "" tables ≡ some sample_refresh
unfolding first
refresh_seen = refl

refresh_is_no_access : seen_access sample_service "refresh" "" tables ≡ none
unfolding first
refresh_is_no_access = refl

given_refresh : ◌≢◌ {A = String} "refresh" ""
given_refresh = λ e. false≢true ((eq_iff "refresh" "").1 e)

foreign_rt :
    (rt : RefreshToken)
    → seen_refresh sample_service "refresh" "" tables ≡ some rt
    → rt.client_id ≢ other_client.id
foreign_rt rt h = ground (arith, refresh_seen)

foreign_at :
    (at : AccessToken)
    → seen_access sample_service "refresh" "" tables ≡ some at
    → at.client_id ≢ other_client.id
foreign_at at h = ground (arith, refresh_is_no_access)

revoke_foreign_example : revoke sample_service "refresh" "" other_client tables ≡ (ok tt, tables)
revoke_foreign_example =
    revoke_foreign sample_service other_client "refresh" "" tables given_refresh (no_jwt "refresh")
      foreign_rt foreign_at

abbrev told : IntrospectResponse
told = record {
  active = true;
  scope = "openid read";
  client_id = "client";
  username = "ada@example.com";
  token_type = "Bearer";
  exp = 0;
  iat = 0;
  sub = "client";
  iss = "https://id.example";
  aud = "";
}

owner_told :
    introspect_token sample_service "access" "" "https://id.example" 7 tables ≡ (ok told, tables)
unfolding introspect_token ◌>>=◌ jwt_claims Introspect.introspect_by_hash
    Repository.access_token_by_id first Introspect.introspect_access_token join_scopes
owner_told = refl

introspect_token_lem_example :
    ((at : AccessToken) × (seen_access sample_service "access" "" tables ≡ some at)
      × IsActiveAccess sample_service 7 at told)
    ⊎ ((rt : RefreshToken) × (seen_access sample_service "access" "" tables ≡ none)
        × (seen_refresh sample_service "access" "" tables ≡ some rt)
        × IsActiveRefresh sample_service 7 rt told)
introspect_token_lem_example =
    introspect_token_lem sample_service "https://id.example" 7 tables "access" "" told tables
      (no_jwt "access") owner_told refl

abbrev rotated : State
rotated = (exchange_refresh_token sample_service web_client "refresh" "read" tables).1

refresh_rotates :
    exchange_refresh_token sample_service web_client "refresh" "read" tables
    ≡ (ok read_tokens, rotated)
unfolding exchange_refresh_token ◌>>=◌ Refresh.rotate_and_issue Repository.refresh_token_by_id first
    Refresh.check_refresh Scopes.parse_space_delimited Scopes.filter_scopes Refresh.refresh_policy
    Repository.rotate issue_tokens Issue.issuance_grant Issue.mint Issue.resolve_resource
    Issue.store_tokens orion_auth_backend.Prelude.any Repository.revoke_by_refresh_token
    orion_auth_backend.Prelude.update_where Issue.id_token Scopes.join_scopes Issue.user_scopes
refresh_rotates = refl

abbrev old_token : RefreshToken
old_token = record sample_refresh { rotated_at = some 100 }

abbrev new_token : RefreshToken
new_token = record {
  id = "second";
  client_id = 7;
  user_id = 3;
  session_id = 5;
  scopes = read_only;
  audience = none;
  family_id = 1002;
  parent_id = none;
  expires_at = 7200000000100;
  revoked = false;
  rotated_at = none;
  created_at = 100;
}

old_found : first (id_is "refresh") rotated.refresh_tokens ≡ some old_token
unfolding exchange_refresh_token ◌>>=◌ Refresh.rotate_and_issue Repository.refresh_token_by_id first
    Refresh.check_refresh Scopes.parse_space_delimited Scopes.filter_scopes Refresh.refresh_policy
    Repository.rotate issue_tokens Issue.issuance_grant Issue.mint Issue.resolve_resource
    Issue.store_tokens orion_auth_backend.Prelude.any Repository.revoke_by_refresh_token
    orion_auth_backend.Prelude.update_where Issue.id_token Scopes.join_scopes Issue.user_scopes
old_found = refl

new_found : first (id_is "second") rotated.refresh_tokens ≡ some new_token
unfolding exchange_refresh_token ◌>>=◌ Refresh.rotate_and_issue Repository.refresh_token_by_id first
    Refresh.check_refresh Scopes.parse_space_delimited Scopes.filter_scopes Refresh.refresh_policy
    Repository.rotate issue_tokens Issue.issuance_grant Issue.mint Issue.resolve_resource
    Issue.store_tokens orion_auth_backend.Prelude.any Repository.revoke_by_refresh_token
    orion_auth_backend.Prelude.update_where Issue.id_token Scopes.join_scopes Issue.user_scopes
new_found = refl

other_family : ◌≢◌ {A = ℕ} 1002 40
other_family = λ e. ground arith

revoke_spares_successor_example :
    (after : State) × (revoke sample_service "refresh" "" web_client rotated ≡ (ok tt, after))
    × (first (id_is "second") after.refresh_tokens ≡ some new_token)
    × (false ≡ false)
revoke_spares_successor_example =
    revoke_spares_successor sample_service web_client "refresh" "read" "" tables rotated read_tokens
      old_token new_token given_refresh (no_jwt "refresh") refl refl refl refl refresh_rotates
      old_found new_found other_family
