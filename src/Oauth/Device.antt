-- ===== src/Oauth/Device.antt =====
-- oauth/device.go: the device authorization grant of RFC 8628.
pub mod Codes
pub mod Approval
pub mod Polling
pub mod Races
use orion_auth_backend.Prelude.{
  ℕ, ◌+◌, ◌*◌, ◌/◌, zero, suc, String, Bool, true, false, not, ◌&&◌, List, [], ◌∷◌, Option, none,
  some, ltb, ◌==◌, str_eq, if◌then◌else◌,
}
use Prim.Native.Char.{Char}
use Prim.Native.String
use orion_auth_backend.Errors.{
  Error, access_denied, server_error, invalid_grant, unauthorized_client, expired_token, slow_down,
  authorization_pending,
}
use orion_auth_backend.Exec.{
  Exec, Result, ok, err, pure, raise, or_raise, found, optional, fail_if, branch, when, ignore,
  ◌>>=◌, ◌>>◌,
}
use orion_auth_backend.Model.{
  OauthClient, DeviceCode, DeviceStatus, pending, denied, authorized, consumed, State, User,
  has_grant_type, validate_scopes, device_code_is_expired, Session,
}
use orion_auth_backend.World.{
  World, second, generate, update_device_code, poll_device_code, consume_device_code,
}
use orion_auth_backend.Session.{create}
use orion_auth_backend.Oauth.Scopes.{parse_space_delimited}
use orion_auth_backend.Oauth.Service.{Service, PolicyResult, load_roles, consult, device_approval}
use orion_auth_backend.Oauth.Repository.{
  client_by_id, user_by_id, device_code_by_hash, device_code_by_user_code, insert_device_code,
  save_device_code, transaction,
}
use orion_auth_backend.Oauth.Issue.{TokenResponse, IssueOpts, issue_tokens}

abbrev pub user_code_alphabet : String
user_code_alphabet = "BCDFGHJKLMNPQRSTVWXZ"

-- s[i], for an index in range
unfoldable pub letter_at : String → ℕ → Option Char
letter_at String.[] i = none
letter_at (String.◌∷◌ c s) zero = some c
letter_at (String.◌∷◌ c s) (suc i) = letter_at s i

abbrev pub letter_of : Option ℕ → Option Char
letter_of none = none
letter_of (some i) = letter_at user_code_alphabet i

abbrev picked : Error → Option Char → Result Char
picked e none = err e
picked e (some c) = ok c

abbrev pub status_text : DeviceStatus → String
status_text pending = "pending"
status_text denied = "denied"
status_text authorized = "authorized"
status_text consumed = "consumed"

abbrev is_pending : DeviceStatus → Bool
is_pending pending = true
is_pending _ = false

pub record DeviceAuthResponse : Type 0 where
  pub device_code : String
  pub user_code : String
  pub verification_uri : String
  pub verification_uri_complete : String
  pub expires_in : ℕ
  pub interval : ℕ

pub record DeviceVerifyResponse : Type 0 where
  pub user_code : String
  pub client_name : String
  pub scopes : List String

pub record DeviceApproveInput : Type 0 where
  pub user_code : String
  pub approved : Bool

module _ (svc : Service) where
  -- one round of generateUserCode
  unfoldable pub draw_letter : Exec State Char
  draw_letter s = (
    picked (server_error "failed to generate user code") (letter_of (svc.index s.draws 20)),
    record s { draws = s.draws + 1 },
  )

  -- that many rounds, in order
  unfoldable pub draw_letters : ℕ → Exec State String
  draw_letters zero = pure ""
  draw_letters (suc n) = do c ← draw_letter; rest ← draw_letters n; pure (String.◌∷◌ c rest)

  unfoldable pub generate_user_code : Exec State String
  generate_user_code = do
    head ← draw_letters 4
    tail ← draw_letters 4
    pure (String.◌++◌ head (String.◌++◌ "-" tail))

  abbrev pub pending_code : OauthClient → List String → String → String → DeviceCode
  pending_code client scopes hash user_code = record {
    device_code_hash = hash;
    user_code = user_code;
    client_id = client.id;
    scopes = scopes;
    user_id = none;
    session_id = none;
    audience = none;
    status = pending;
    interval_secs = 5;
    expires_at = svc.now + svc.device_code_ttl;
    last_polled_at = none;
    created_at = svc.wall;
  }

  unfoldable pub init_device_authorization :
      OauthClient → (scope issuer : String) → Exec State DeviceAuthResponse
  init_device_authorization client scope issuer = do
    fail_if (not (has_grant_type client "urn:ietf:params:oauth:grant-type:device_code"))
        (unauthorized_client "client is not authorized for device_code grant")
    let scopes = validate_scopes client (parse_space_delimited scope)
    raw_code ← generate svc.world (server_error "failed to generate device code")
    user_code ← generate_user_code
    or_raise (server_error "failed to create device code") (
        insert_device_code svc.world
          (pending_code client scopes (svc.hash_token raw_code) user_code))
    let uri = String.◌++◌ issuer "/device/verify"
    pure (record {
      device_code = raw_code;
      user_code = user_code;
      verification_uri = uri;
      verification_uri_complete = String.◌++◌ uri (String.◌++◌ "?code=" user_code);
      expires_in = svc.device_code_ttl / second;
      interval = 5;
    })

  abbrev name_of : Result OauthClient → String
  name_of (ok client) = client.name
  name_of (err _) = ""

  -- the checks that DeviceVerify and DeviceApprove share
  unfoldable pub pending_device_code : String → Exec State DeviceCode
  unfolding ◌>>=◌ device_code_by_user_code device_code_is_expired
  pending_device_code user_code = do
    dc ← found (invalid_grant "invalid user code") (device_code_by_user_code svc.world user_code)
    fail_if (device_code_is_expired svc.wall dc) (expired_token "device code expired")
    fail_if (not (is_pending dc.status))
        (invalid_grant (String.◌++◌ "device code already " (status_text dc.status)))
    pure dc

  unfoldable pub device_verify : String → Exec State DeviceVerifyResponse
  device_verify user_code = do
    dc ← pending_device_code user_code
    name ← λ s. (ok (name_of (client_by_id svc.world dc.client_id s).0), s)
    pure (record { user_code = dc.user_code; client_name = name; scopes = dc.scopes })

  abbrev maybe_client : Result OauthClient → Option OauthClient
  maybe_client (ok client) = some client
  maybe_client (err _) = none

  abbrev allowed : Option PolicyResult → Result (Unit {0})
  allowed none = ok tt
  allowed (some r) = if r.deny then err (access_denied r.deny_reason) else ok tt

  abbrev approval_verdict :
      DeviceCode → ℕ → (ip agent : String) → State → Option User → Result (Unit {0})
  approval_verdict dc user ip agent s none = ok tt
  approval_verdict dc user ip agent s (some u) =
      let (roles, perms) = load_roles svc.role_provider user in
      let client = maybe_client (client_by_id svc.world dc.client_id s).0 in
      allowed (
        consult svc.policy_evaluator
          (device_approval u client roles perms dc.scopes dc.user_code ip agent))

  -- the policy step; it reads the tables and writes none
  unfoldable pub approval_policy : DeviceCode → ℕ → (ip agent : String) → Exec State Unit
  unfolding ◌>>=◌
  approval_policy dc user ip agent = do
    u ← optional (user_by_id svc.world user)
    λ s. (approval_verdict dc user ip agent s u, s)

  -- the end of the handler, for a decision to allow
  unfoldable pub allow_device : DeviceCode → ℕ → (ip agent : String) → Exec State Unit
  allow_device dc user ip agent = do
    approval_policy dc user ip agent
    sess ← or_raise (server_error "failed to create session") (
        create svc.world svc.session_config
          (record { user_id = user; ip_address = ip; user_agent = agent; extended = false }))
    or_raise (server_error "failed to update device code") (
        save_device_code svc.world update_device_code
          (record dc { status = authorized; user_id = some user; session_id = some sess.id }))

  unfoldable pub device_approve : DeviceApproveInput → ℕ → (ip agent : String) → Exec State Unit
  device_approve input user ip agent = do
    dc ← pending_device_code input.user_code
    branch (not input.approved)
        (save_device_code svc.world update_device_code (record dc { status = denied }))
        (allow_device dc user ip agent)

  abbrev pub polled_too_soon : DeviceCode → Option ℕ → Bool
  polled_too_soon dc none = false
  polled_too_soon dc (some last) = ltb svc.now (last + dc.interval_secs * second)

  abbrev pub device_opts : DeviceCode → IssueOpts
  device_opts dc = record {
    nonce = "";
    auth_time = some dc.created_at;
    audience = none;
    requested_claims = "";
    acr = "";
    amr = [];
  }

  -- the case of an authorized code
  unfoldable pub consume_device :
      OauthClient → DeviceCode → Option ℕ → Option ℕ → Exec State TokenResponse
  consume_device client dc (some user) (some session) = do
    resp ←
        transaction svc.world
          (issue_tokens svc client user (some session) dc.scopes (device_opts dc))
    ignore (save_device_code svc.world consume_device_code (record dc { status = consumed }))
    pure resp
  consume_device client dc _ _ = raise (invalid_grant "device code not properly authorized")

  -- the switch on the status
  unfoldable pub poll : OauthClient → DeviceCode → DeviceStatus → Exec State TokenResponse
  poll client dc pending = raise authorization_pending
  poll client dc denied = raise (access_denied "user denied the authorization request")
  poll client dc authorized = consume_device client dc dc.user_id dc.session_id
  poll client dc consumed = raise (invalid_grant "unexpected device code status")

  -- the checks in front of the switch
  unfoldable pub check_poll : OauthClient → DeviceCode → Exec State Unit
  unfolding ◌>>=◌ device_code_is_expired
  check_poll client dc = do
    fail_if (not (dc.client_id == client.id))
        (invalid_grant "device code not issued to this client")
    fail_if (device_code_is_expired svc.wall dc) (expired_token "device code expired")
    fail_if (polled_too_soon dc dc.last_polled_at) slow_down

  unfoldable pub read_device_code : String → Exec State DeviceCode
  read_device_code device_code =
      found (invalid_grant "invalid device code")
        (device_code_by_hash svc.world (svc.hash_token device_code))

  -- ExchangeDeviceCode after that query: the checks, the stamp of the poll and its save, the status
  unfoldable pub poll_found : OauthClient → DeviceCode → Exec State TokenResponse
  poll_found client row = do
    check_poll client row
    let dc = record row { last_polled_at = some svc.now }
    ignore (save_device_code svc.world poll_device_code dc)
    poll client dc dc.status

  -- ExchangeDeviceCode
  unfoldable pub exchange_device_code : OauthClient → String → Exec State TokenResponse
  exchange_device_code client device_code = do
    row ← read_device_code device_code
    poll_found client row
