-- ===== src/Tests/Tokens.antt =====
-- Issuance, client credentials, sessions and scopes on the sample tables.
use orion_auth_backend.Prelude.{
  ℕ, zero, suc, ◌<◌, String, ◌≡◌, ◌≢◌, refl, ap, Bool, true, false, List, [], ◌∷◌, Option, none,
  some, first, All, arith, IsSubset, ◌⊎◌, eq_iff, false≢true, contains, ◌||◌, ◌==◌,
}
use orion_auth_backend.Exec.{ok, ◌>>=◌}
use orion_auth_backend.Model.{State, pending}
use orion_auth_backend.Oauth.Scopes.{join_scopes}
use orion_auth_backend.Oauth.Issue
use orion_auth_backend.Oauth.Issue.{TokenResponse, IssueOpts, issue_tokens}
use orion_auth_backend.Oauth.Issue.Laws.{Issued, issue_tokens-Issued}
use orion_auth_backend.Tests.Sample.{sample_service, web_client, tables_at}

abbrev tables : State
tables = tables_at pending

abbrev read_only : List String
read_only = "read" ∷ []

abbrev plain_opts : IssueOpts
plain_opts = record {
  nonce = "";
  auth_time = none;
  audience = none;
  requested_claims = "";
  acr = "";
  amr = [];
}

abbrev read_tokens : TokenResponse
read_tokens = record {
  access_token = "first";
  token_type = "Bearer";
  expires_in = 3600;
  refresh_token = "second";
  id_token = "";
  scope = "read";
}

abbrev issued_state : State
issued_state = (issue_tokens sample_service web_client 3 (some 5) read_only plain_opts tables).1

read_issued :
    issue_tokens sample_service web_client 3 (some 5) read_only plain_opts tables
    ≡ (ok read_tokens, issued_state)
unfolding issue_tokens ◌>>=◌ Issue.issuance_grant Issue.mint Issue.resolve_resource
    Issue.store_tokens orion_auth_backend.Prelude.any Issue.id_token join_scopes Issue.user_scopes
read_issued = refl

issue_tokens-Issued_example :
    Issued sample_service web_client 3 (some 5) read_only tables issued_state read_tokens
issue_tokens-Issued_example =
    issue_tokens-Issued sample_service web_client 3 (some 5) read_only plain_opts tables
      issued_state read_tokens read_issued
