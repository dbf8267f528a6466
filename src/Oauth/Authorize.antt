-- ===== src/Oauth/Authorize.antt =====
-- The end of the authorization endpoint, oauth/service.go: AuthorizeConsent,
-- CompleteAuthorizeFirstParty and completeAuthorize.
pub mod Laws
pub mod Consents
pub mod Exchange
use Prim.Native.String
use orion_auth_backend.Prelude.{
  ℕ, ◌+◌, ◌-◌, ◌*◌, ◌/◌, String, Bool, true, false, not, ◌&&◌, List, [], ◌∷◌, Option, none, some,
  str_eq, deref_or, is_some, if◌then◌else◌,
}
use orion_auth_backend.Errors.{Error, invalid_request, invalid_scope, server_error, panic}
use orion_auth_backend.Exec.{
  Exec, Result, ok, err, pure, lift, or_raise, found, optional, require, fail_if, branch, ignore,
  ◌>>=◌, ◌>>◌,
}
use orion_auth_backend.Model.{
  OauthClient, AuthorizationRequest, AuthorizationCode, AccessToken, Consent, Session, State, User,
  request_is_expired, is_ready,
}
use orion_auth_backend.World.{World, second, generate}
use orion_auth_backend.Session.{create}
use orion_auth_backend.Oauth.Scopes.{
  filter_scopes, is_hybrid_response_type, response_type_includes, compute_acr,
}
use orion_auth_backend.Oauth.Service.{
  Service, PolicyResult, IdTokenClaims, load_roles, consult, judge_scopes, consent,
}
use orion_auth_backend.Oauth.Repository.{client_by_id, user_by_id, insert_access_token}
use orion_auth_backend.Oauth.Repository.Flow.{
  auth_request_by_id, save_auth_request, remove_auth_request, insert_auth_code, active_consent,
  insert_consent, save_consent,
}
use orion_auth_backend.Oauth.Hybrid.{HybridTokens, no_tokens, hybrid_tokens}

pub record AuthorizeConsentInput : Type 0 where
  pub request_id : ℕ
  pub scopes_granted : List String

pub record AuthorizeConsentResponse : Type 0 where
  pub redirect_uri : String
  pub code : String
  pub state : String
  pub issuer : String
  pub session_state : String
  pub response_mode : String
  pub access_token : String
  pub token_type : String
  pub expires_in : ℕ
  pub id_token : String
  pub session_cookie : String
  pub cookie_extended : Bool
  pub cookie_max_age : ℕ

abbrev kept_method : Option String → Option String → Option String
kept_method none method = none
kept_method (some _) method = method

abbrev pub non_empty_granted : List String → Result (List String)
non_empty_granted [] = err (invalid_scope "no valid scopes granted")
non_empty_granted (s ∷ scopes) = ok (s ∷ scopes)

module _ (svc : Service) where
  -- computeSessionState; the salt is empty when the generator fails
  unfoldable pub compute_session_state :
      (client_id redirect_uri session_id : String) → Exec State String
  compute_session_state client_id redirect_uri session_id s =
      let salt = deref_or "" (svc.random s.draws) in
      let text = String.◌++◌ client_id (
        String.◌++◌ " " (
          String.◌++◌ (svc.extract_origin redirect_uri)
            (String.◌++◌ " " (String.◌++◌ session_id (String.◌++◌ " " salt))))) in
      (
        ok (String.◌++◌ (svc.hash_token text) (String.◌++◌ "." salt)),
        record s { draws = s.draws + 1 },
      )

  abbrev pub code_row : AuthorizationRequest → ℕ → ℕ → String → AuthorizationCode
  code_row req user session hash = record {
    code_hash = hash;
    client_id = req.client_id;
    user_id = user;
    redirect_uri = req.redirect_uri;
    scopes = req.scopes;
    code_challenge = req.code_challenge;
    code_challenge_method = kept_method req.code_challenge req.code_challenge_method;
    nonce = req.nonce;
    session_id = some session;
    audience = req.audience;
    claims_param = req.claims_param;
    auth_time = req.auth_time;
    auth_methods = req.auth_methods;
    expires_at = svc.now + svc.auth_code_ttl;
    used = false;
    created_at = svc.wall;
  }

  -- fragment is the default of the hybrid flows
  abbrev mode_of : AuthorizationRequest → String
  mode_of req =
      let mode = deref_or "" req.response_mode in
      if is_hybrid_response_type req.response_type && str_eq mode "" then "fragment" else mode

  abbrev pub respond :
      AuthorizationRequest
      → Session
      → (code session_state : String) → HybridTokens
      → AuthorizeConsentResponse
  respond req sess code session_state tokens = record {
    redirect_uri = req.redirect_uri;
    code = code;
    state = deref_or "" req.state;
    issuer = svc.issuer;
    session_state = session_state;
    response_mode = mode_of req;
    access_token = tokens.access_token;
    token_type = tokens.token_type;
    expires_in = tokens.expires_in;
    id_token = tokens.id_token;
    session_cookie = sess.cookie_token;
    cookie_extended = sess.extended;
    cookie_max_age = (sess.expires_at - svc.now) / second;
  }

  -- the response, once the code is stored
  unfoldable pub answer :
      AuthorizationRequest → ℕ → Session → String → Exec State AuthorizeConsentResponse
  answer req user sess raw_code = do
    session_state ←
        compute_session_state (svc.uuid_text req.client_id) req.redirect_uri (svc.uuid_text sess.id)
    tokens ←
        branch (is_hybrid_response_type req.response_type)
          (hybrid_tokens svc req user sess.id raw_code) (pure no_tokens)
    pure (respond req sess raw_code session_state tokens)

  -- the code and the response, once the session is there and the request is deleted
  unfoldable pub hand_out : AuthorizationRequest → ℕ → Session → Exec State AuthorizeConsentResponse
  hand_out req user sess = do
    raw_code ← generate svc.world (server_error "failed to generate authorization code")
    or_raise (server_error "failed to create authorization code")
        (insert_auth_code svc.world (code_row req user sess.id (svc.hash_token raw_code)))
    answer req user sess raw_code

  -- the user of the request is dereferenced first
  unfoldable pub complete_authorize :
      AuthorizationRequest → (ip agent : String) → Exec State AuthorizeConsentResponse
  complete_authorize req ip agent = do
    user ← require panic req.user_id
    sess ← or_raise (server_error "failed to create session") (
        create svc.world svc.session_config (record {
          user_id = user;
          ip_address = ip;
          user_agent = agent;
          extended = req.remember_me;
        }))
    ignore (remove_auth_request svc.world req.id)
    hand_out req user sess

  unfoldable pub complete_authorize_first_party :
      ℕ → (ip agent : String) → Exec State AuthorizeConsentResponse
  complete_authorize_first_party request_id ip agent = do
    req ←
        found (invalid_request "invalid or expired authorization request")
          (auth_request_by_id svc.world request_id)
    fail_if (not (is_ready svc.wall req)) (invalid_request "authorization request is not ready")
    complete_authorize req ip agent

  -- the checks in front of a consent
  unfoldable pub check_consent : AuthorizationRequest → Exec State ℕ
  unfolding ◌>>=◌ request_is_expired
  check_consent req = do
    fail_if (request_is_expired svc.wall req) (invalid_request "authorization request expired")
    fail_if (not req.authenticated) (invalid_request "must authenticate first")
    require (server_error "authorization request has no user") req.user_id

  abbrev pub ok_client : Result OauthClient → Option OauthClient
  ok_client (ok c) = some c
  ok_client (err _) = none

  -- the policy is asked when both the user and the client are found
  abbrev pub consent_verdict :
      AuthorizationRequest
      → List String
      → (ip agent : String) → Option User
      → Option OauthClient
      → Option PolicyResult
  consent_verdict req granted ip agent (some u) (some client) =
      let (roles, perms) = load_roles svc.role_provider u.id in
      consult svc.policy_evaluator (consent u client roles perms req.scopes granted ip agent)
  consent_verdict req granted ip agent _ _ = none

  -- the consent policy; it reads the tables and writes none
  unfoldable pub consent_policy :
      AuthorizationRequest → ℕ → List String → (ip agent : String) → Exec State (List String)
  unfolding ◌>>=◌ user_by_id
  consent_policy req user granted ip agent = do
    u ← optional (user_by_id svc.world user)
    λ s. (
      judge_scopes granted (
          consent_verdict req granted ip agent u
            (ok_client (client_by_id svc.world req.client_id s).0)),
      s,
    )

  abbrev new_consent : ℕ → ℕ → List String → Consent
  new_consent user client granted = record {
    id = 0;
    user_id = user;
    client_id = client;
    scopes = granted;
    granted_at = svc.now;
    revoked_at = none;
  }

  unfoldable pub store_consent : ℕ → ℕ → List String → Option Consent → Exec State Unit
  store_consent user client granted none =
      or_raise (server_error "failed to store consent")
        (insert_consent svc.world (new_consent user client granted))
  store_consent user client granted (some c) =
      or_raise (server_error "failed to update consent")
        (save_consent svc.world (record c { scopes = granted; granted_at = svc.now }))

  unfoldable pub authorize_consent :
      AuthorizeConsentInput → (ip agent : String) → Exec State AuthorizeConsentResponse
  authorize_consent input ip agent = do
    req ←
        found (invalid_request "invalid or expired authorization request")
          (auth_request_by_id svc.world input.request_id)
    user ← check_consent req
    offered ← lift (non_empty_granted (filter_scopes input.scopes_granted req.scopes))
    granted ← consent_policy req user offered ip agent
    existing ← optional (active_consent svc.world user req.client_id)
    store_consent user req.client_id granted existing
    let given = record req { consent_given = true; scopes = granted }
    or_raise (server_error "failed to update authorization request")
        (save_auth_request svc.world given)
    complete_authorize given ip agent
