-- ===== src/Oauth/Start.antt =====
-- The start of the authorization endpoint, oauth/service.go: what InitAuthorize validates, and the
-- rows that it stores.
pub mod Silent
pub mod Init
pub mod Pushed
pub mod Gate
pub mod Laws
pub mod Hint
use Prim.Native.String
use orion_auth_backend.Prelude.{
  ℕ, ◌+◌, ◌-◌, ◌*◌, ◌%◌, ◌<◌, String, Bool, true, false, not, ◌&&◌, ◌||◌, List, [], ◌∷◌, Option,
  none, some, ℤ, pos, negsuc, ltb, leb, ltb_ℤ, str_eq, deref_or, is_some, if◌then◌else◌,
}
use orion_auth_backend.Errors.{
  Error, invalid_request, unauthorized_client, unsupported_response_type, invalid_scope,
  server_error, login_required, consent_required, account_selection_required, panic,
}
use orion_auth_backend.Exec.{
  Exec, Result, ok, err, pure, lift, or_raise, found, optional, require, fail_if, branch, ignore,
  ◌>>=◌, ◌>>◌,
}
use orion_auth_backend.Model.{
  OauthClient, ApiResource, ResourcePermission, AuthorizationRequest, PushedRequest, Consent,
  Session, State, validate_scopes, has_redirect_uri, has_grant_type, covers_scopes,
}
use orion_auth_backend.World.{World, second, new_uuid}
use orion_auth_backend.Session.{find_by_cookie_token}
use orion_auth_backend.Oauth.Scopes.{is_valid_response_type, parse_space_delimited, union_scopes}
use orion_auth_backend.Oauth.Params.{
  InitAuthorizeParams, given, read_max_age, guard_all, is_prompt, is_display, is_response_mode,
}
use orion_auth_backend.Oauth.Service.{Service, ResourceValidator}
use orion_auth_backend.Oauth.Repository.{client_by_id}
use orion_auth_backend.Oauth.Repository.Flow.{
  active_consent, insert_auth_request, insert_par, par_by_uri, remove_par,
}
use orion_auth_backend.Oauth.Authorize.{AuthorizeConsentResponse, complete_authorize}

pub record ResourceInfo : Type 0 where
  pub name : String
  pub identifier : String
  pub permissions : List ResourcePermission

pub record InitAuthorizeResponse : Type 0 where
  pub request_id : ℕ
  pub client_name : String
  pub client_id : ℕ
  pub scopes_requested : List String
  pub requires_login : Bool
  pub requires_consent : Bool
  pub resource : Option ResourceInfo
  pub login_hint : String
  pub display : String
  pub prompt : String
  pub response_mode : String
  pub redirect : Option AuthorizeConsentResponse

-- What the validation of the audience and the scopes gives.
pub record Granted : Type 0 where
  pub scopes : List String
  pub audience : Option String
  pub resource : Option ResourceInfo

abbrev refused : Option (Option ℕ) → Bool
refused none = true
refused (some _) = false

abbrev pub max_age_of : InitAuthorizeParams → Option ℕ
max_age_of p = deref_or none (read_max_age p.max_age)

-- A method is S256 when it is left out.
abbrev challenge_method : InitAuthorizeParams → String
challenge_method p =
    if not (str_eq p.code_challenge "") && str_eq p.code_challenge_method ""
    then "S256"
    else p.code_challenge_method

-- `if params.CodeChallenge != "" { req.CodeChallengeMethod = … }`
abbrev given_method : InitAuthorizeParams → Option String
given_method p = if str_eq p.code_challenge "" then none else some (challenge_method p)

abbrev some_resource_scopes : List String → List String → Result (List String)
some_resource_scopes client_scopes [] =
    err (invalid_scope "client has no permissions for this resource")
some_resource_scopes client_scopes (s ∷ scopes) = ok (union_scopes client_scopes (s ∷ scopes))

abbrev some_client_scopes : List String → Result Granted
some_client_scopes [] = err (invalid_scope "no valid scopes requested")
some_client_scopes (s ∷ scopes) =
    ok (record { scopes = s ∷ scopes; audience = none; resource = none })

abbrev resource_info : ApiResource → ResourceInfo
resource_info r = record { name = r.name; identifier = r.identifier; permissions = r.permissions }

abbrev granted_for : String → ApiResource → Result (List String) → Result Granted
granted_for audience r (ok scopes) =
    ok (record { scopes = scopes; audience = some audience; resource = some (resource_info r) })
granted_for audience r (err e) = err e

abbrev union_or_refuse : List String → Result (List String) → Result (List String)
union_or_refuse client_scopes (ok scopes) = some_resource_scopes client_scopes scopes
union_or_refuse client_scopes (err e) = err e

abbrev for_resource :
    ResourceValidator
    → OauthClient
    → (audience : String) → (requested client_scopes : List String) → Result (Option ApiResource)
    → Result Granted
for_resource v client audience requested client_scopes (ok (some r)) =
    granted_for audience r
      (union_or_refuse client_scopes (v.validate_client_scopes client.id r.id requested))
for_resource v client audience requested client_scopes (ok none) = err panic
for_resource v client audience requested client_scopes (err e) = err e

abbrev granted_by :
    Option ResourceValidator
    → OauthClient
    → (audience : String) → (requested client_scopes : List String) → Result Granted
granted_by none client audience requested client_scopes = some_client_scopes client_scopes
granted_by (some v) client audience requested client_scopes =
    if str_eq audience ""
    then some_client_scopes client_scopes
    else for_resource v client audience requested client_scopes (v.validate_audience audience)

-- time.Duration(m) * time.Second, with the wrap-around of 64 bits
abbrev pub wrap : ℕ → ℤ
wrap n =
    let r = n % 18446744073709551616 in
    if ltb r 9223372036854775808 then pos r else negsuc (18446744073709551615 - r)

-- a - b of two times
abbrev pub elapsed : ℕ → ℕ → ℤ
elapsed a b = if leb b a then pos (a - b) else negsuc (b - a - 1)

abbrev pub too_old : (now since : ℕ) → Option ℕ → Bool
too_old now since none = false
too_old now since (some m) = ltb_ℤ (wrap (m * second)) (elapsed now since)

module _ (svc : Service) where
  -- The guards of InitAuthorize, up to the scopes.
  abbrev pub init_guards : OauthClient → InitAuthorizeParams → List (Bool × Error)
  init_guards client p =
      (
        not (is_valid_response_type p.response_type),
        unsupported_response_type
            "supported response_types: code, code id_token, code token, code id_token token",
      )
      ∷ (not (has_redirect_uri client p.redirect_uri), invalid_request "invalid redirect_uri")
      ∷ (
        not (has_grant_type client "authorization_code"),
        unauthorized_client "client is not authorized for authorization_code grant",
      )
      ∷ (
        (client.is_public || client.require_pkce) && str_eq p.code_challenge "",
        invalid_request "PKCE (code_challenge) is required",
      )
      ∷ (
        not (str_eq p.code_challenge "")
            && not (str_eq p.code_challenge_method "S256")
            && not (str_eq p.code_challenge_method ""),
        invalid_request "only S256 code_challenge_method is supported",
      )
      ∷ (
        not (str_eq p.prompt "") && not (is_prompt p.prompt),
        invalid_request "invalid prompt value",
      )
      ∷ (
        not (str_eq p.display "") && not (is_display p.display),
        invalid_request "invalid display value",
      )
      ∷ (
        not (str_eq p.response_mode "") && not (is_response_mode p.response_mode),
        invalid_request "invalid response_mode value",
      )
      ∷ (refused (read_max_age p.max_age), invalid_request "max_age must be a non-negative integer")
      ∷ (
        not (str_eq p.claims "") && not (svc.params_codec.is_json p.claims),
        invalid_request "invalid claims parameter: must be valid JSON",
      )
      ∷ (
        str_eq p.prompt "select_account",
        account_selection_required "account selection is not supported",
      )
      ∷ []

  unfoldable pub grant_scopes : OauthClient → InitAuthorizeParams → Result Granted
  unfolding parse_space_delimited validate_scopes
  grant_scopes client p =
      let requested = parse_space_delimited p.scope in
      granted_by svc.resource_validator client p.audience requested
        (validate_scopes client requested)

  -- The row that InitAuthorize stores; its identifier is set when it is stored.
  abbrev pub login_request : OauthClient → InitAuthorizeParams → Granted → AuthorizationRequest
  login_request client p g = record {
    id = 0;
    client_id = client.id;
    redirect_uri = p.redirect_uri;
    response_type = p.response_type;
    scopes = g.scopes;
    state = given p.state;
    nonce = given p.nonce;
    code_challenge = given p.code_challenge;
    code_challenge_method = given_method p;
    user_id = none;
    authenticated = false;
    consent_given = false;
    audience = g.audience;
    prompt = given p.prompt;
    max_age = max_age_of p;
    display = given p.display;
    ui_locales = given p.ui_locales;
    claims_locales = given p.claims_locales;
    acr_values = given p.acr_values;
    login_hint = given p.login_hint;
    id_token_hint = given p.id_token_hint;
    claims_param = given p.claims;
    auth_time = none;
    response_mode = given p.response_mode;
    auth_methods = [];
    remember_me = false;
    expires_at = svc.now + 600 * second;
  }

  -- The row of a user who is known already: less is copied into it.
  abbrev pub known_request :
      OauthClient → InitAuthorizeParams → Granted → (user auth_time : ℕ) → AuthorizationRequest
  known_request client p g user auth_time = record (login_request client p g) {
    user_id = some user;
    authenticated = true;
    consent_given = true;
    prompt = none;
    max_age = none;
    display = none;
    ui_locales = none;
    claims_locales = none;
    acr_values = none;
    login_hint = none;
    id_token_hint = none;
    auth_time = some auth_time;
    response_mode = none;
  }
