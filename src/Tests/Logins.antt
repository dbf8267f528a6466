-- ===== src/Tests/Logins.antt =====
-- A login from the start of the authorization endpoint to a request that is ready, a second factor,
-- and the silent answers.
use orion_auth_backend.Prelude.{
  ℕ, String, ◌≡◌, refl, Bool, true, false, List, [], ◌∷◌, some, none, str_eq,
}
use orion_auth_backend.World
use orion_auth_backend.Model
use orion_auth_backend.Session
use orion_auth_backend.Oauth.Scopes
use orion_auth_backend.Oauth.Service
use orion_auth_backend.Oauth.Params
use orion_auth_backend.Oauth.Repository
use orion_auth_backend.Oauth.Repository.Flow
use orion_auth_backend.Oauth.Authorize
use orion_auth_backend.Oauth.Start
use orion_auth_backend.Oauth.Start.Silent
use orion_auth_backend.Oauth.Start.Init
use orion_auth_backend.Oauth.Login
use orion_auth_backend.Exec.{ok, ◌>>=◌}
use orion_auth_backend.Model.{User, State, OauthClient, AuthorizationRequest, pending, is_ready}
use orion_auth_backend.Oauth.Service.{Service, MfaValidator}
use orion_auth_backend.Oauth.Params.{InitAuthorizeParams}
use orion_auth_backend.Oauth.Authorize.{AuthorizeConsentResponse}
use orion_auth_backend.Oauth.Repository.Flow.{auth_request_by_id}
use orion_auth_backend.Oauth.Start.{Granted, InitAuthorizeResponse, login_request}
use orion_auth_backend.Oauth.Start.Silent.{try_silent_sso, handle_prompt_none}
use orion_auth_backend.Oauth.Start.Init.{init_authorize}
use orion_auth_backend.Oauth.Start.Laws.{IsLiveLogin, try_silent_sso-IsLiveLogin}
use orion_auth_backend.Oauth.Start.Hint.{IsSilentGrant, handle_prompt_none-IsSilentGrant}
use orion_auth_backend.Oauth.Login.{
  AuthorizeLoginInput, AuthorizeLoginResponse, AuthorizeMfaInput, authorize_login, authorize_mfa,
  identify,
}
use orion_auth_backend.Oauth.Login.Gate.{Gated}
use orion_auth_backend.Oauth.Login.Reach.{◌⟶*◌, here, next, starts, logs_in, reached-Gated}
use orion_auth_backend.Oauth.Login.Factors.{LeavesLogin, authorize_login-LeavesLogin}
use orion_auth_backend.Tests.Sample.{sample_service, sample_params, web_client, tables_at}

abbrev pub home_client : OauthClient
home_client = record web_client { is_first_party = true }

abbrev pub home_tables : State
home_tables = record (tables_at pending) {
  db = record (tables_at pending).db { clients = home_client ∷ [] };
}

abbrev pub started : State
started = (init_authorize sample_service home_client sample_params home_tables).1

abbrev pub ada_logs_in : AuthorizeLoginInput
ada_logs_in = record {
  request_id = 1000;
  email = "ada@example.com";
  password = "secret";
  remember_me = false;
}

abbrev logged_in : State
logged_in = (authorize_login sample_service ada_logs_in "::1" "browser" started).1

to_login : home_tables ⟶* logged_in
to_login =
    next (starts sample_service home_client sample_params)
      (next (logs_in sample_service ada_logs_in "::1" "browser") here)

reached-Gated_example : Gated logged_in
reached-Gated_example = reached-Gated refl to_login

abbrev read_access : Granted
read_access = record { scopes = "openid" ∷ "read" ∷ []; audience = none; resource = none }

abbrev pub no_more_steps : AuthorizeLoginResponse
no_more_steps = record {
  request_id = 1000;
  authenticated = true;
  requires_consent = false;
  requires_mfa = false;
  scopes = "openid" ∷ "read" ∷ [];
}

login_returns :
    authorize_login sample_service ada_logs_in "::1" "browser" started
    ≡ (ok no_more_steps, logged_in)
unfolding orion_auth_backend.Prelude.first orion_auth_backend.Prelude.any init_authorize
    Scopes.is_valid_response_type Model.has_redirect_uri Model.has_grant_type Params.read_max_age
    Start.grant_scopes Model.keep_registered Model.has_scope Init.start Init.ask_for_login
    Flow.insert_auth_request authorize_login Login.open_request Login.admit Login.has_mfa_or_false
    Login.login_policy Login.mfa_policy Login.mfa_verdict Login.save_step Flow.save_auth_request
    Flow.active_consent Repository.client_by_id orion_auth_backend.Prelude.update_where ◌>>=◌
    auth_request_by_id World.new_uuid Login.live_request Service.consult
    orion_auth_backend.Prelude.save_row
login_returns = refl

authorize_login-LeavesLogin_example :
    (user : User) × ((sample_service.user_service.authenticate
        (record { email = "ada@example.com"; password = "secret" })
        started).0
      ≡ ok user)
    × LeavesLogin sample_service 1000 logged_in user.id no_more_steps
authorize_login-LeavesLogin_example =
    authorize_login-LeavesLogin sample_service ada_logs_in "::1" "browser" started logged_in
      no_more_steps login_returns

-- Every user has a second factor with one code.
abbrev one_code : MfaValidator
one_code = record {
  has_mfa = λ user s. (ok true, s);
  validate_code = λ user code s. (ok (str_eq code "123456"), s);
  has_mfa_keeps = λ user s. refl;
  validate_code_keeps = λ user code s. refl;
}

abbrev two_factor_service : Service
two_factor_service = record sample_service { mfa_validator = some one_code }

abbrev awaits_code : State
awaits_code = (authorize_login two_factor_service ada_logs_in "::1" "browser" started).1

abbrev right_code : AuthorizeMfaInput
right_code = record { request_id = 1000; code = "123456" }

abbrev confirmed : State
confirmed = (authorize_mfa two_factor_service right_code awaits_code).1

abbrev with_cookie : InitAuthorizeParams
with_cookie = record sample_params { session_cookie = "cookie"; max_age = "30" }

abbrev signed_on : State
signed_on = (try_silent_sso sample_service home_client with_cookie read_access home_tables).1

abbrev redirect_of : AuthorizeConsentResponse
redirect_of = record {
  redirect_uri = "https://web.example/cb";
  code = "other";
  state = "xyz";
  issuer = "https://id.example";
  session_state = "client https://web.example/cb client other.other";
  response_mode = "";
  access_token = "";
  token_type = "";
  expires_in = 0;
  id_token = "";
  session_cookie = "third";
  cookie_extended = false;
  cookie_max_age = 0;
}

abbrev silent_answer : InitAuthorizeResponse
silent_answer = record {
  request_id = 1000;
  client_name = "web";
  client_id = 7;
  scopes_requested = "openid" ∷ "read" ∷ [];
  requires_login = false;
  requires_consent = false;
  resource = none;
  login_hint = "";
  display = "";
  prompt = "";
  response_mode = "";
  redirect = some redirect_of;
}

silently_answered :
    try_silent_sso sample_service home_client with_cookie read_access home_tables
    ≡ (ok (some silent_answer), signed_on)
unfolding Authorize.complete_authorize Authorize.answer Authorize.compute_session_state
    Authorize.hand_out Flow.insert_auth_code Flow.remove_auth_request Scopes.is_hybrid_response_type
    orion_auth_backend.Prelude.select Session.create Session.resolve_ttl World.generate
    Flow.insert_auth_request Flow.active_consent orion_auth_backend.Prelude.any
    orion_auth_backend.Prelude.first ◌>>=◌ orion_auth_backend.Prelude.update_where try_silent_sso
    Silent.resume_session Silent.finish_sso Session.find_by_cookie_token Params.read_max_age
silently_answered = refl

try_silent_sso-IsLiveLogin_example : IsLiveLogin sample_service with_cookie home_tables
try_silent_sso-IsLiveLogin_example =
    try_silent_sso-IsLiveLogin sample_service home_client with_cookie read_access home_tables
      signed_on silent_answer silently_answered

abbrev hinted_service : Service
hinted_service = record sample_service { id_token_validator = some (λ hint. ok 3) }

abbrev with_hint : InitAuthorizeParams
with_hint = record sample_params { prompt = "none"; id_token_hint = "hint" }

abbrev hinted : State
hinted = (handle_prompt_none hinted_service home_client with_hint read_access home_tables).1

hint_answered :
    handle_prompt_none hinted_service home_client with_hint read_access home_tables
    ≡ (ok silent_answer, hinted)
unfolding Authorize.complete_authorize Authorize.answer Authorize.compute_session_state
    Authorize.hand_out Flow.insert_auth_code Flow.remove_auth_request Scopes.is_hybrid_response_type
    orion_auth_backend.Prelude.select Session.create Session.resolve_ttl World.generate
    Flow.insert_auth_request Flow.active_consent orion_auth_backend.Prelude.any
    orion_auth_backend.Prelude.first ◌>>=◌ orion_auth_backend.Prelude.update_where
    handle_prompt_none
hint_answered = refl

handle_prompt_none-IsSilentGrant_example :
    IsSilentGrant hinted_service home_client with_hint read_access home_tables hinted silent_answer
handle_prompt_none-IsSilentGrant_example =
    handle_prompt_none-IsSilentGrant hinted_service home_client with_hint read_access home_tables
      hinted silent_answer hint_answered
