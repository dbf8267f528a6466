-- ===== src/Tests/Consents.antt =====
-- A consent, and the exchange of the code that it hands out.
use orion_auth_backend.Prelude.{String, ◌≡◌, ◌≢◌, refl, List, [], ◌∷◌, some, none, true, false}
use orion_auth_backend.Exec.{ok, ◌>>=◌}
use orion_auth_backend.Model.{State, pending, AuthorizationRequest}
use orion_auth_backend.World
use orion_auth_backend.Session
use orion_auth_backend.Oauth.Scopes
use orion_auth_backend.Oauth.Service
use orion_auth_backend.Oauth.Repository
use orion_auth_backend.Oauth.Repository.{transaction}
use orion_auth_backend.Oauth.Repository.Flow
use orion_auth_backend.Oauth.Issue
use orion_auth_backend.Oauth.Issue.{TokenResponse, issue_tokens}
use orion_auth_backend.Oauth.Code
use orion_auth_backend.Oauth.Code.{exchange_authorization_code}
use orion_auth_backend.Oauth.Authorize
use orion_auth_backend.Oauth.Authorize.{
  AuthorizeConsentInput, AuthorizeConsentResponse, authorize_consent,
  complete_authorize_first_party,
}
use orion_auth_backend.Oauth.Authorize.Consents.{
  Consented, authorize_consent-Consented, request_spent,
}
use orion_auth_backend.Oauth.Authorize.Exchange.{WithinConsent, tokens-WithinConsent}
use orion_auth_backend.Tests.Sample.{sample_service, web_client, tables_at}

abbrev sample_request : AuthorizationRequest
sample_request = record {
  id = 11;
  client_id = 7;
  redirect_uri = "https://web.example/cb";
  response_type = "code";
  scopes = "openid" ∷ "read" ∷ [];
  state = some "xyz";
  nonce = none;
  code_challenge = some "verifier";
  code_challenge_method = some "S256";
  user_id = some 3;
  authenticated = true;
  consent_given = false;
  audience = none;
  prompt = none;
  max_age = none;
  display = none;
  ui_locales = none;
  claims_locales = none;
  acr_values = none;
  login_hint = none;
  id_token_hint = none;
  claims_param = none;
  auth_time = none;
  response_mode = none;
  auth_methods = "pwd" ∷ [];
  remember_me = false;
  expires_at = 600;
}

abbrev asked : State
asked = record (tables_at pending) {
  db = record (tables_at pending).db { auth_requests = sample_request ∷ [] };
}

abbrev read_granted : AuthorizeConsentInput
read_granted = record { request_id = 11; scopes_granted = "read" ∷ "admin" ∷ [] }

abbrev consented_state : State
consented_state = (authorize_consent sample_service read_granted "::1" "browser" asked).1

abbrev answer : AuthorizeConsentResponse
answer = record {
  redirect_uri = "https://web.example/cb";
  code = "other";
  state = "xyz";
  issuer = "https://id.example";
  session_state = "client https://web.example/cb client other.other";
  response_mode = "";
  access_token = "";
  token_type = "";
  expires_in = 0;
  id_token = "";
  session_cookie = "third";
  cookie_extended = false;
  cookie_max_age = 0;
}

read_consented :
    authorize_consent sample_service read_granted "::1" "browser" asked
    ≡ (ok answer, consented_state)
unfolding authorize_consent ◌>>=◌ Flow.auth_request_by_id orion_auth_backend.Prelude.first
    Authorize.check_consent Scopes.filter_scopes orion_auth_backend.Prelude.contains
    Authorize.consent_policy Service.judge_scopes Repository.client_by_id Service.consult
    Authorize.store_consent Flow.active_consent Flow.insert_consent orion_auth_backend.Prelude.any
    Flow.save_auth_request Authorize.complete_authorize Authorize.answer
    Authorize.compute_session_state Authorize.hand_out Flow.insert_auth_code
    Flow.remove_auth_request Scopes.is_hybrid_response_type Scopes.is_valid_response_type
    orion_auth_backend.Prelude.select orion_auth_backend.Prelude.update_where Session.create
    Session.resolve_ttl World.generate orion_auth_backend.Prelude.save_row
read_consented = refl

authorize_consent-Consented_example :
    Consented sample_service read_granted asked consented_state answer
authorize_consent-Consented_example =
    authorize_consent-Consented sample_service read_granted "::1" "browser" asked consented_state
      answer read_consented

request_spent_example :
    ((authorize_consent sample_service
        (record { request_id = 11; scopes_granted = "read" ∷ [] })
        "::1"
        "browser"
        consented_state).0
      ≢ ok answer)
    × ((complete_authorize_first_party sample_service 11 "::1" "browser" consented_state).0
        ≢ ok answer)
request_spent_example =
    request_spent sample_service read_granted ("read" ∷ []) "::1" "browser" asked consented_state
      answer answer refl read_consented

abbrev exchanged : State
exchanged =
    (exchange_authorization_code sample_service web_client "other" "https://web.example/cb"
      "verifier" consented_state).1

abbrev read_tokens : TokenResponse
read_tokens = record {
  access_token = "other";
  token_type = "Bearer";
  expires_in = 3600;
  refresh_token = "other";
  id_token = "";
  scope = "read";
}

code_exchanged :
    exchange_authorization_code sample_service web_client "other" "https://web.example/cb"
      "verifier" consented_state
    ≡ (ok read_tokens, exchanged)
unfolding authorize_consent ◌>>=◌ Flow.auth_request_by_id orion_auth_backend.Prelude.first
    Authorize.check_consent Scopes.filter_scopes orion_auth_backend.Prelude.contains
    Authorize.consent_policy Service.judge_scopes Repository.client_by_id Service.consult
    Authorize.store_consent Flow.active_consent Flow.insert_consent orion_auth_backend.Prelude.any
    Flow.save_auth_request Authorize.complete_authorize Authorize.answer
    Authorize.compute_session_state Authorize.hand_out Flow.insert_auth_code
    Flow.remove_auth_request Scopes.is_hybrid_response_type Scopes.is_valid_response_type
    orion_auth_backend.Prelude.select orion_auth_backend.Prelude.update_where Session.create
    Session.resolve_ttl World.generate exchange_authorization_code Code.redeem_code
    Repository.auth_code_by_hash Code.check_code Repository.mark_used issue_tokens
    Issue.issuance_grant Issue.mint Issue.resolve_resource Issue.store_tokens Issue.id_token
    Scopes.join_scopes Issue.user_scopes orion_auth_backend.Prelude.save_row
code_exchanged = refl

tokens-WithinConsent_example :
    WithinConsent sample_service read_granted web_client "https://web.example/cb" asked
      consented_state exchanged
tokens-WithinConsent_example =
    tokens-WithinConsent sample_service read_granted "::1" "browser" asked consented_state answer
      web_client "https://web.example/cb" "verifier" exchanged read_tokens read_consented
      code_exchanged
