-- ===== src/Tests/Sample.antt =====
-- A world without failures, a client, a user and their tables.
use orion_auth_backend.Prelude.{
  ℕ, ◌+◌, zero, suc, String, refl, arith, str_eq, Bool, true, false, [], ◌∷◌, none, some,
  if◌then◌else◌,
}
use orion_auth_backend.Model.{
  OauthClient, Session, AccessToken, RefreshToken, AuthorizationCode, DeviceCode, DeviceStatus,
  State, User,
}
use orion_auth_backend.World.{World, Op, consume_device_code}
use orion_auth_backend.Oauth.Service.{Service, UserService}
use orion_auth_backend.Oauth.Params.{ParamsCodec, InitAuthorizeParams}
use orion_auth_backend.Exec.{ok, err}
use orion_auth_backend.Errors.{unauthorized}

abbrev texts : ℕ → String
texts zero = "first"
texts (suc zero) = "second"
texts (suc (suc zero)) = "third"
texts _ = "other"

-- Digests are the identity, draws are texts in order, and no query fails.
abbrev pub sample_world : World
sample_world = record {
  now = 100;
  wall = 100;
  hash_token = λ t. t;
  s256 = λ t. t;
  left_half = λ t. t;
  random = λ n. some (texts n);
  uuid = λ n. some (1000 + n);
  index = λ n bound. some 3;
  breaks = λ op. false;
  after_transaction = λ done before after. if done then after else before;
  commits = λ before after. refl;
  rolls_back = λ before after. refl;
}

abbrev pub ada : User
ada = record {
  id = 3;
  email = "ada@example.com";
  email_verified = true;
  email_verify_token = none;
  email_verify_expires_at = none;
  password_hash = some "secret";
  must_set_password = false;
  password_reset_token = none;
  password_reset_expires_at = none;
  display_name = none;
  locked_until = none;
  failed_login_attempts = 0;
  active = true;
}

abbrev pub newcomer : User
newcomer = record {
  id = 9;
  email = "new@example.com";
  email_verified = false;
  email_verify_token = none;
  email_verify_expires_at = none;
  password_hash = some "secret";
  must_set_password = false;
  password_reset_token = none;
  password_reset_expires_at = none;
  display_name = none;
  locked_until = none;
  failed_login_attempts = 0;
  active = true;
}

-- Ada logs in with her password, and registrations succeed.
abbrev pub sample_users : UserService
sample_users = record {
  authenticate = λ input s. (
    if str_eq input.password "secret" then ok ada else err (unauthorized "invalid credentials"),
    s,
  );
  register = λ input s. (ok newcomer, s);
  send_verification_email = λ user request s. (ok tt, s);
  authenticate_keeps = λ input s. refl;
  register_keeps = λ input s. refl;
  send_keeps = λ user request s. refl;
}

abbrev pub sample_params : InitAuthorizeParams
sample_params = record {
  redirect_uri = "https://web.example/cb";
  response_type = "code";
  scope = "openid read";
  state = "xyz";
  nonce = "";
  code_challenge = "verifier";
  code_challenge_method = "S256";
  audience = "";
  prompt = "";
  max_age = "";
  display = "";
  ui_locales = "";
  claims_locales = "";
  acr_values = "";
  login_hint = "";
  claims = "";
  id_token_hint = "";
  response_mode = "";
  session_cookie = "";
}

-- Every text reads as the sample parameters, and nothing is serialized.
abbrev pub sample_codec : ParamsCodec
sample_codec = record {
  marshal = λ p. none;
  unmarshal = λ t. some sample_params;
  is_json = λ t. true;
  reads_back = λ p t h. ground arith;
}

-- A service in this world, without policies, resources, JWTs or ID tokens.
abbrev pub service_in : World → Service
service_in w = record {
  world = w;
  issuer = "https://id.example";
  session_config = record { session_ttl = 50; session_extended_ttl = 500; resolver = none };
  extract_origin = λ uri. uri;
  auth_code_ttl = 60;
  device_code_ttl = 600;
  id_token_generator = none;
  jwt_signer = none;
  policy_evaluator = none;
  resource_validator = none;
  role_provider = none;
  uuid_text = λ n. "client";
  parse_uuid = λ t. none;
  id_token_validator = none;
  mfa_validator = none;
  user_service = sample_users;
  params_codec = sample_codec;
}

abbrev pub sample_service : Service
sample_service = service_in sample_world

abbrev pub web_client : OauthClient
web_client = record {
  id = 7;
  name = "web";
  redirect_uris = "https://web.example/cb" ∷ [];
  grant_types =
      "authorization_code" ∷ "refresh_token" ∷ "client_credentials"
      ∷ "urn:ietf:params:oauth:grant-type:device_code" ∷ [];
  scopes = "openid" ∷ "read" ∷ [];
  is_public = false;
  is_first_party = false;
  require_pkce = false;
  jwks_uri = none;
  access_token_ttl = 3600;
  refresh_token_ttl = 7200;
  id_token_ttl = 3600;
  subject_type = "public";
  sector_identifier_uri = none;
  id_token_encrypted_response_alg = none;
  id_token_encrypted_response_enc = none;
  active = true;
}

abbrev pub sample_code : AuthorizationCode
sample_code = record {
  code_hash = "code";
  client_id = 7;
  user_id = 3;
  redirect_uri = "https://web.example/cb";
  scopes = "openid" ∷ "read" ∷ [];
  code_challenge = some "verifier";
  code_challenge_method = some "S256";
  nonce = none;
  session_id = some 5;
  audience = none;
  claims_param = none;
  auth_time = none;
  auth_methods = [];
  expires_at = 160;
  used = false;
  created_at = 90;
}

abbrev pub sample_refresh : RefreshToken
sample_refresh = record {
  id = "refresh";
  client_id = 7;
  user_id = 3;
  session_id = 5;
  scopes = "openid" ∷ "read" ∷ [];
  audience = none;
  family_id = 40;
  parent_id = none;
  expires_at = 900;
  revoked = false;
  rotated_at = none;
  created_at = 80;
}

abbrev pub sample_access : AccessToken
sample_access = record {
  id = "access";
  client_id = 7;
  user_id = some 3;
  session_id = some 5;
  refresh_token_id = some "refresh";
  scopes = "openid" ∷ "read" ∷ [];
  audience = none;
  jti = none;
  expires_at = 800;
  revoked = false;
  created_at = 80;
}

abbrev pub sample_device : DeviceStatus → DeviceCode
sample_device status = record {
  device_code_hash = "device";
  user_code = "BCDF-GHJK";
  client_id = 7;
  scopes = "openid" ∷ [];
  user_id = some 3;
  session_id = some 5;
  audience = none;
  status = status;
  interval_secs = 5;
  expires_at = 700;
  last_polled_at = none;
  created_at = 80;
}

abbrev pub sample_session : Session
sample_session = record {
  id = 5;
  user_id = 3;
  ip_address = none;
  user_agent = none;
  last_active_at = 80;
  authenticated_at = 80;
  revoked = false;
  revoked_at = none;
  expires_at = 500;
  created_at = 80;
  extended = false;
  cookie_token_hash = "cookie";
  cookie_token = "";
}

-- One row in each table, with a device code in this status.
abbrev pub tables_at : DeviceStatus → State
tables_at status = record {
  db = record {
    clients = web_client ∷ [];
    users = ada ∷ [];
    auth_requests = [];
    pushed_requests = [];
    auth_codes = sample_code ∷ [];
    access_tokens = sample_access ∷ [];
    refresh_tokens = sample_refresh ∷ [];
    consents = [];
    device_codes = sample_device status ∷ [];
    revoked_jtis = [];
    sessions = sample_session ∷ [];
    mfa_methods = [];
    reauth_tokens = [];
  };
  draws = 0;
}

-- The driver fails the update that marks a device code as consumed.
abbrev pub consume_fails : Op → Bool
consume_fails consume_device_code = true
consume_fails _ = false
