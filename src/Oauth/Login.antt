-- ===== src/Oauth/Login.antt =====
-- The steps between the start and the end of the authorization endpoint, oauth/service.go:
-- AuthorizeLogin, AuthorizeRegister, AuthorizeMFA and ResumeAuthorizeAfterExternalLogin.
pub mod Verified
pub mod Gate
pub mod Flow
pub mod Ends
pub mod Reach
pub mod Factors
use Prim.Native.String
use orion_auth_backend.Prelude.{
  ℕ, ◌+◌, ◌*◌, String, Bool, true, false, not, ◌&&◌, ◌||◌, List, [], ◌∷◌, ◌++◌, Option, none, some,
  str_eq, is_some, if◌then◌else◌,
}
use orion_auth_backend.Errors.{
  Error, invalid_request, server_error, access_denied, internal_error, forbidden,
}
use orion_auth_backend.Exec.{
  Exec, Result, ok, err, pure, lift, or_raise, found, optional, require, fail_if, ignore, ◌>>=◌,
  ◌>>◌,
}
use orion_auth_backend.Model.{
  OauthClient, AuthorizationRequest, Consent, State, User, request_is_expired, covers_scopes,
}
use orion_auth_backend.World.{World, second}
use orion_auth_backend.Oauth.Modify.{Fields, read_modify_bool}
use orion_auth_backend.Oauth.Service.{
  Service, PolicyResult, MfaValidator, UserService, LoginInput, RegisterInput, load_roles, consult,
  modifications, login, mfa,
}
use orion_auth_backend.Oauth.Repository.{client_by_id, user_by_id}
use orion_auth_backend.Oauth.Repository.Flow.{auth_request_by_id, save_auth_request, active_consent}

pub record AuthorizeLoginInput : Type 0 where
  pub request_id : ℕ
  pub email : String
  pub password : String
  pub remember_me : Bool

pub record AuthorizeLoginResponse : Type 0 where
  pub request_id : ℕ
  pub authenticated : Bool
  pub requires_consent : Bool
  pub requires_mfa : Bool
  pub scopes : List String

pub record AuthorizeRegisterInput : Type 0 where
  pub request_id : ℕ
  pub email : String
  pub password : String
  pub display_name : Option String
  pub extra_fields : Fields

pub record AuthorizeRegisterResponse : Type 0 where
  pub request_id : ℕ
  pub user_id : ℕ
  pub requires_email_verification : Bool

pub record AuthorizeMfaInput : Type 0 where
  pub request_id : ℕ
  pub code : String

-- A stored consent that covers the scopes.
abbrev pub is_covered : Option Consent → List String → Bool
is_covered none scopes = false
is_covered (some c) scopes = covers_scopes c scopes

-- `req.Prompt != nil && *req.Prompt == "consent"`
abbrev pub forces_consent : AuthorizationRequest → Bool
forces_consent req = elim req.prompt [ none ↦ false | some p ↦ str_eq p "consent" ]

abbrev pub needs_consent : AuthorizationRequest → OauthClient → Option Consent → Bool
needs_consent req client consent =
    forces_consent req || (not (is_covered consent req.scopes) && not client.is_first_party)

-- The login policy can only deny.
abbrev login_verdict : Option PolicyResult → Result {0} Unit
login_verdict none = ok tt
login_verdict (some r) = if r.deny then err (access_denied r.deny_reason) else ok tt

abbrev required_mfa : Bool → Option Bool → Result Bool
required_mfa has_mfa none = ok has_mfa
required_mfa has_mfa (some required) =
    if required && not has_mfa
    then err (access_denied "multi-factor authentication required but not enrolled")
    else ok required

-- The MFA policy denies, or says whether a second factor is needed.
unfoldable pub mfa_verdict : Bool → Option PolicyResult → Result Bool
unfolding read_modify_bool
mfa_verdict has_mfa none = ok has_mfa
mfa_verdict has_mfa (some r) =
    if r.deny
    then err (access_denied r.deny_reason)
    else required_mfa has_mfa (read_modify_bool (modifications r) "require_mfa")

abbrev no_mfa : Result Bool → Bool
no_mfa (ok b) = b
no_mfa (err _) = false

-- `valid, err := …; if err != nil || !valid`
abbrev pub accepted : Result Bool → Result {0} Unit
accepted (ok true) = ok tt
accepted (ok false) = err (access_denied "invalid MFA code")
accepted (err _) = err (access_denied "invalid MFA code")

module _ (svc : Service) where
  -- the row once its user is known, by one method and before a second factor if that is needed
  abbrev pub identify :
      AuthorizationRequest → ℕ → String → Bool → (needs_mfa needs : Bool) → AuthorizationRequest
  identify req user method remember needs_mfa needs =
      let authenticated = not needs_mfa || req.authenticated in
      record req {
        user_id = some user;
        remember_me = remember;
        auth_methods = req.auth_methods ++ method ∷ [];
        authenticated = authenticated;
        auth_time = if needs_mfa then req.auth_time else some svc.now;
        consent_given = (not needs && authenticated) || req.consent_given;
      }

  -- the row once the second factor is given
  abbrev pub confirm : AuthorizationRequest → (covered needs : Bool) → AuthorizationRequest
  confirm req covered needs = record req {
    authenticated = true;
    auth_methods = req.auth_methods ++ "otp" ∷ [];
    auth_time = some svc.now;
    consent_given = not (forces_consent req) && (covered || not needs || req.consent_given);
  }

  -- FindAuthRequest with the check of the expiry
  unfoldable pub live_request : ℕ → Exec State AuthorizationRequest
  unfolding ◌>>=◌ auth_request_by_id request_is_expired
  live_request id = do
    req ←
        found (invalid_request "invalid or expired authorization request")
          (auth_request_by_id svc.world id)
    fail_if (request_is_expired svc.wall req) (invalid_request "authorization request expired")
    pure req

  -- the request of a login step, which is not authenticated yet
  unfoldable pub open_request : ℕ → String → Exec State AuthorizationRequest
  unfolding ◌>>=◌ live_request
  open_request id already = do
    req ← live_request id
    fail_if req.authenticated (invalid_request already)
    pure req

  unfoldable pub has_mfa_or_false : Option MfaValidator → ℕ → Exec State Bool
  has_mfa_or_false none user s = (ok false, s)
  has_mfa_or_false (some v) user s = let (r, s') = v.has_mfa user s in (ok (no_mfa r), s')

  unfoldable pub login_policy : User → OauthClient → (ip agent : String) → Result {0} Unit
  unfolding load_roles consult
  login_policy u client ip agent =
      let (roles, perms) = load_roles svc.role_provider u.id in
      login_verdict (consult svc.policy_evaluator (login u client roles perms ip agent))

  unfoldable pub mfa_policy :
      User → OauthClient → List String → Bool → (ip agent : String) → Result Bool
  unfolding load_roles consult mfa_verdict
  mfa_policy u client scopes has_mfa ip agent =
      let (roles, perms) = load_roles svc.role_provider u.id in
      mfa_verdict has_mfa
        (consult svc.policy_evaluator (mfa u client roles perms scopes has_mfa ip agent))

  unfoldable pub save_step : AuthorizationRequest → Exec State Unit
  unfolding ◌>>=◌ save_auth_request
  save_step row =
      or_raise (server_error "failed to update authorization request")
        (save_auth_request svc.world row)

  abbrev step_response : AuthorizationRequest → (needs_mfa needs : Bool) → AuthorizeLoginResponse
  step_response req needs_mfa needs = record {
    request_id = req.id;
    authenticated = not needs_mfa;
    requires_consent = needs;
    requires_mfa = needs_mfa;
    scopes = req.scopes;
  }

  -- the end of AuthorizeLogin, once the user is authenticated and the client found
  unfoldable pub admit :
      AuthorizationRequest
      → User
      → OauthClient
      → Bool
      → (ip agent : String) → Exec State AuthorizeLoginResponse
  admit req u client remember ip agent = do
    consent ← optional (active_consent svc.world u.id req.client_id)
    has ← has_mfa_or_false svc.mfa_validator u.id
    needs_mfa ← lift (mfa_policy u client req.scopes has ip agent)
    let needs = needs_consent req client consent
    save_step (identify req u.id "pwd" remember needs_mfa needs)
    pure (step_response req needs_mfa needs)

  unfoldable pub authorize_login :
      AuthorizeLoginInput → (ip agent : String) → Exec State AuthorizeLoginResponse
  authorize_login input ip agent = do
    req ← open_request input.request_id "already authenticated"
    u ← svc.user_service.authenticate (record { email = input.email; password = input.password })
    client ←
        or_raise (server_error "failed to look up client") (client_by_id svc.world req.client_id)
    lift (login_policy u client ip agent)
    admit req u client input.remember_me ip agent

  abbrev register_input : AuthorizeRegisterInput → RegisterInput
  register_input input = record {
    email = input.email;
    password = input.password;
    display_name = input.display_name;
    extra_fields = input.extra_fields;
    skip_verification_email = true;
  }

  -- the row that waits for the verification of the new user's address
  abbrev pub await_verification : AuthorizationRequest → ℕ → AuthorizationRequest
  await_verification req user = record req {
    user_id = some user;
    expires_at = svc.now + 86400 * second;
  }

  unfoldable pub authorize_register : AuthorizeRegisterInput → Exec State AuthorizeRegisterResponse
  authorize_register input = do
    req ← open_request input.request_id "already authenticated"
    or_raise (server_error "failed to look up client") (client_by_id svc.world req.client_id)
    u ← svc.user_service.register (register_input input)
    save_step (await_verification req u.id)
    ignore (svc.user_service.send_verification_email u.id (some req.id))
    pure (record { request_id = req.id; user_id = u.id; requires_email_verification = true })

  unfoldable pub check_code : Option MfaValidator → ℕ → String → Exec State Unit
  check_code none user code s = (err (server_error "MFA validator not configured"), s)
  check_code (some v) user code s = let (r, s') = v.validate_code user code s in (accepted r, s')

  -- whether consent is still needed: a client is looked up only when no consent covers the scopes
  unfoldable pub consent_left : AuthorizationRequest → Bool → Exec State Bool
  consent_left req true = pure false
  consent_left req false = do
    client ←
        or_raise (server_error "failed to look up client") (client_by_id svc.world req.client_id)
    pure (not client.is_first_party)

  -- the end of AuthorizeMFA, once the code is accepted
  unfoldable pub admit_factor : AuthorizationRequest → ℕ → Exec State AuthorizeLoginResponse
  admit_factor req user = do
    consent ← optional (active_consent svc.world user req.client_id)
    let covered = is_covered consent req.scopes
    needs ← consent_left req covered
    save_step (confirm req covered needs)
    pure (step_response req false (forces_consent req || needs))

  unfoldable pub authorize_mfa : AuthorizeMfaInput → Exec State AuthorizeLoginResponse
  authorize_mfa input = do
    req ← live_request input.request_id
    user ← require (invalid_request "must authenticate first") req.user_id
    fail_if req.authenticated (invalid_request "MFA already completed")
    check_code svc.mfa_validator user input.code
    admit_factor req user

  -- the end of ResumeAuthorizeAfterExternalLogin, once the client is found
  unfoldable pub resume :
      AuthorizationRequest → User → OauthClient → String → Exec State AuthorizeLoginResponse
  resume req u client provider = do
    consent ← optional (active_consent svc.world u.id req.client_id)
    needs_mfa ← has_mfa_or_false svc.mfa_validator u.id
    let needs = needs_consent req client consent
    save_step (identify req u.id (String.◌++◌ "fed:" provider) req.remember_me needs_mfa needs)
    pure (step_response req needs_mfa needs)

  unfoldable pub resume_after_external_login :
      (request_id user : ℕ) (provider : String) → Exec State AuthorizeLoginResponse
  resume_after_external_login request_id user provider = do
    req ← open_request request_id "authorization request already authenticated"
    u ← found (internal_error "federated user not found") (user_by_id svc.world user)
    fail_if (not u.active) (forbidden "account is deactivated")
    client ←
        or_raise (server_error "failed to look up client") (client_by_id svc.world req.client_id)
    resume req u client provider
