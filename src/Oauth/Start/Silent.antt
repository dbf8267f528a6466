-- ===== src/Oauth/Start/Silent.antt =====
-- oauth/service.go: handlePromptNone and trySilentSSO, the branches of InitAuthorize without a login.
use orion_auth_backend.Prelude.{
  ℕ, ◌+◌, ◌*◌, String, Bool, true, false, not, ◌&&◌, ◌||◌, List, Option, none, some, str_eq,
  if◌then◌else◌,
}
use orion_auth_backend.Errors.{server_error, login_required, consent_required}
use orion_auth_backend.Exec.{
  Exec, Result, ok, err, pure, lift, or_raise, optional, fail_if, branch, ◌>>=◌, ◌>>◌,
}
use orion_auth_backend.Model.{
  OauthClient, AuthorizationRequest, Consent, Session, State, covers_scopes,
}
use orion_auth_backend.World.{second}
use orion_auth_backend.Session.{find_by_cookie_token}
use orion_auth_backend.Oauth.Params.{InitAuthorizeParams, given}
use orion_auth_backend.Oauth.Service.{Service}
use orion_auth_backend.Oauth.Repository.Flow.{active_consent, insert_auth_request}
use orion_auth_backend.Oauth.Authorize.{AuthorizeConsentResponse, complete_authorize}
use orion_auth_backend.Oauth.Start.{
  InitAuthorizeResponse, Granted, max_age_of, too_old, known_request,
}

abbrev covered : Option Consent → List String → Bool
covered none scopes = false
covered (some c) scopes = covers_scopes c scopes

abbrev pub identified : Option (String → Result ℕ) → String → Result ℕ
identified none hint = err (login_required "prompt=none requires id_token_hint")
identified (some validate) hint =
    if str_eq hint ""
    then err (login_required "prompt=none requires id_token_hint")
    else elim (validate hint) [
      | ok user ↦ ok user
      | err _ ↦ err (login_required "invalid id_token_hint")
    ]

module _ (svc : Service) where
  abbrev silent_response :
      OauthClient → ℕ → List String → AuthorizeConsentResponse → InitAuthorizeResponse
  silent_response client id scopes redirect = record {
    request_id = id;
    client_name = client.name;
    client_id = client.id;
    scopes_requested = scopes;
    requires_login = false;
    requires_consent = false;
    resource = none;
    login_hint = "";
    display = "";
    prompt = "";
    response_mode = "";
    redirect = some redirect;
  }

  -- handlePromptNone
  unfoldable pub handle_prompt_none :
      OauthClient → InitAuthorizeParams → Granted → Exec State InitAuthorizeResponse
  handle_prompt_none client p g = do
    user ← lift (identified svc.id_token_validator p.id_token_hint)
    consent ← optional (active_consent svc.world user client.id)
    fail_if (not (covered consent g.scopes) && not client.is_first_party)
        (consent_required "user has not consented to the requested scopes")
    stored ← or_raise (server_error "failed to create authorization request") (
        insert_auth_request svc.world (record (known_request svc client p g user svc.now) {
          expires_at = svc.now + 60 * second;
        }))
    redirect ← complete_authorize svc stored "" ""
    pure (silent_response client stored.id g.scopes redirect)

  abbrev pub needs_consent : OauthClient → InitAuthorizeParams → List String → Option Consent → Bool
  needs_consent client p scopes consent =
      str_eq p.prompt "consent" || (not (covered consent scopes) && not client.is_first_party)

  abbrev pub sso_request :
      OauthClient → InitAuthorizeParams → Granted → Session → Bool → AuthorizationRequest
  sso_request client p g sess needs =
      record (known_request svc client p g sess.user_id sess.authenticated_at) {
        remember_me = sess.extended;
        consent_given = not needs;
        response_mode = given p.response_mode;
      }

  abbrev consent_screen : OauthClient → InitAuthorizeParams → Granted → ℕ → InitAuthorizeResponse
  consent_screen client p g id = record {
    request_id = id;
    client_name = client.name;
    client_id = client.id;
    scopes_requested = g.scopes;
    requires_login = false;
    requires_consent = true;
    resource = g.resource;
    login_hint = "";
    display = "";
    prompt = "";
    response_mode = p.response_mode;
    redirect = none;
  }

  unfoldable pub finish_sso :
      OauthClient
      → InitAuthorizeParams
      → Granted
      → Bool
      → AuthorizationRequest
      → Exec State (Option InitAuthorizeResponse)
  finish_sso client p g true stored = pure (some (consent_screen client p g stored.id))
  finish_sso client p g false stored = do
    redirect ← complete_authorize svc stored "" ""
    pure (some (silent_response client stored.id g.scopes redirect))

  unfoldable pub resume_session :
      OauthClient
      → InitAuthorizeParams
      → Granted
      → Option Session
      → Exec State (Option InitAuthorizeResponse)
  resume_session client p g none = pure none
  resume_session client p g (some sess) =
      branch (too_old svc.now sess.authenticated_at (max_age_of p)) (pure none) (do
        consent ← optional (active_consent svc.world sess.user_id client.id)
        let needs = needs_consent client p g.scopes consent
        stored ← insert_auth_request svc.world (sso_request client p g sess needs)
        finish_sso client p g needs stored)

  -- trySilentSSO: an error anywhere is a nil response.
  unfoldable pub try_silent_sso :
      OauthClient → InitAuthorizeParams → Granted → Exec State (Option InitAuthorizeResponse)
  try_silent_sso client p g =
      optional
        (do sess ← find_by_cookie_token svc.world p.session_cookie; resume_session client p g sess)
