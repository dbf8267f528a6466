-- ===== src/Tests/Devices.antt =====
-- The device grant on the sample tables.
use orion_auth_backend.Prelude.{ℕ, ◌+◌, String, ◌≡◌, ◌≢◌, refl, true, false, first, some, str_eq}
use orion_auth_backend.Errors.{authorization_pending}
use orion_auth_backend.Exec.{ok, err, ◌>>=◌}
use orion_auth_backend.Model.{State, pending, authorized, DeviceCode}
use orion_auth_backend.Session
use orion_auth_backend.Oauth.Repository
use orion_auth_backend.Oauth.Scopes
use orion_auth_backend.Oauth.Service
use orion_auth_backend.Oauth.Service.{Service}
use orion_auth_backend.Oauth.Issue
use orion_auth_backend.Oauth.Issue.{TokenResponse}
use orion_auth_backend.Oauth.Device
use orion_auth_backend.Oauth.Device.{
  exchange_device_code, device_approve, generate_user_code, DeviceApproveInput, read_device_code,
  check_poll, poll_found,
}
use orion_auth_backend.Oauth.Device.Polling.{
  Polled, device_hash_is, exchange_device_code-Polled, device_code_spent_once,
}
use orion_auth_backend.Oauth.Repository.{save_device_code}
use orion_auth_backend.Oauth.Device.Races.{stale_poll_undoes_decision}
use orion_auth_backend.Oauth.Device.Approval.{IsOpen, Decision, device_approve-Decision}
use orion_auth_backend.Tests.Sample.{
  sample_world, sample_service, web_client, tables_at, sample_device,
}

abbrev device_tokens : TokenResponse
device_tokens = record {
  access_token = "first";
  token_type = "Bearer";
  expires_in = 3600;
  refresh_token = "second";
  id_token = "";
  scope = "openid";
}

abbrev polled_state : State
polled_state = (exchange_device_code sample_service web_client "device" (tables_at authorized)).1

device_yields :
    exchange_device_code sample_service web_client "device" (tables_at authorized)
    ≡ (ok device_tokens, polled_state)
unfolding exchange_device_code ◌>>=◌ Repository.device_code_by_hash first Device.check_poll
    Device.poll Device.consume_device Repository.transaction Issue.issue_tokens Issue.issuance_grant
    Issue.mint Issue.resolve_resource Issue.store_tokens orion_auth_backend.Prelude.any
    Repository.save_device_code Issue.id_token Scopes.join_scopes Issue.user_scopes
    orion_auth_backend.Prelude.update_where Device.read_device_code Device.poll_found
    orion_auth_backend.Prelude.save_row
device_yields = refl

exchange_device_code-Polled_example :
    Polled sample_service web_client "device" (tables_at authorized) polled_state device_tokens
exchange_device_code-Polled_example =
    exchange_device_code-Polled sample_service web_client "device" (tables_at authorized)
      polled_state device_tokens device_yields

-- Six seconds later, past the interval of the code.
abbrev later_service : Service
later_service = record sample_service {
  world = record sample_world { now = sample_world.now + 6000000000 };
}

device_code_spent_once_example :
    (exchange_device_code later_service web_client "device" polled_state).0 ≢ ok device_tokens
device_code_spent_once_example =
    device_code_spent_once sample_service web_client "device" (tables_at authorized) polled_state
      device_tokens later_service web_client device_tokens refl refl device_yields

abbrev allow_it : DeviceApproveInput
allow_it = record { user_code = "BCDF-GHJK"; approved = true }

abbrev allowed_state : State
allowed_state = (device_approve sample_service allow_it 3 "::1" "browser" (tables_at pending)).1

user_allows :
    device_approve sample_service allow_it 3 "::1" "browser" (tables_at pending)
    ≡ (ok tt, allowed_state)
unfolding device_approve ◌>>=◌ Device.pending_device_code first Device.allow_device
    Device.approval_policy Repository.user_by_id Service.consult Session.create
    orion_auth_backend.Prelude.any Repository.save_device_code orion_auth_backend.Prelude.save_row
    orion_auth_backend.Prelude.update_where
user_allows = refl

device_approve-Decision_example :
    (d : DeviceCode) × IsOpen sample_service "BCDF-GHJK" (tables_at pending) d
    × Decision sample_service d 3 (tables_at pending) allowed_state true
device_approve-Decision_example =
    device_approve-Decision sample_service allow_it 3 "::1" "browser" (tables_at pending)
      allowed_state user_allows

device_read :
    read_device_code sample_service "device" (tables_at pending)
    ≡ (ok (sample_device pending), tables_at pending)
unfolding read_device_code ◌>>=◌ Repository.device_code_by_hash first
device_read = refl

poll_passes :
    (check_poll sample_service web_client (sample_device pending) (tables_at pending)).0 ≡ ok tt
unfolding check_poll ◌>>=◌
poll_passes = refl

device_named :
    first (λ (d : DeviceCode). str_eq d.user_code "BCDF-GHJK") (tables_at pending).device_codes
    ≡ some (sample_device pending)
unfolding first
device_named = refl

stale_poll_undoes_decision_example :
    (exchange_device_code sample_service web_client "device" (tables_at pending)
      ≡ poll_found sample_service web_client (sample_device pending) (tables_at pending))
    × ((e : DeviceCode) × (first (device_hash_is "device") allowed_state.device_codes ≡ some e)
        × (e.status ≢ pending))
    × ((poll_found sample_service web_client (sample_device pending) allowed_state).0
        ≡ err authorization_pending)
    × ((e : DeviceCode) × (first
            (device_hash_is "device")
            (poll_found sample_service web_client
              (sample_device pending)
              allowed_state).1.device_codes
          ≡ some e)
        × (e.status ≡ pending))
stale_poll_undoes_decision_example =
    stale_poll_undoes_decision sample_service web_client "device" (sample_device pending) allow_it 3
      "::1" "browser" (tables_at pending) allowed_state refl device_read poll_passes device_named
      user_allows
