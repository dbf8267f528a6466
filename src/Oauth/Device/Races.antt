-- ===== src/Oauth/Device/Races.antt =====
-- A poll and a decision at once: the poll reads the row, the user decides, and the poll saves the row
-- that it read.
use mathlib.Core.Path.{subst}
use orion_auth_backend.Prelude.{
  ℕ, String, ◌≡◌, ◌≢◌, refl, sym, ap, ◌∙◌, Bool, true, false, some, arith, first, first_passes,
  first-save_row, str_eq, eq_iff,
}
use orion_auth_backend.Errors.{authorization_pending}
use orion_auth_backend.Exec.{Result, ok, err, ◌>>=◌}
use orion_auth_backend.Model.{OauthClient, DeviceCode, pending, denied, authorized, Session, State}
use orion_auth_backend.World.{poll_device_code}
use orion_auth_backend.Session.{create, CreateInput}
use orion_auth_backend.Oauth.Service.{Service}
use orion_auth_backend.Oauth.Repository.{save_device_code}
use orion_auth_backend.Oauth.Issue.{TokenResponse}
use orion_auth_backend.Oauth.Device.{
  DeviceApproveInput, device_approve, exchange_device_code, read_device_code, poll_found,
  check_poll, poll,
}
use orion_auth_backend.Oauth.Device.Polling.{device_hash_is, polled, saved, find_device_ok}
use orion_auth_backend.Oauth.Device.Approval.{Decision, refuse, allow, device_approve-Decision}

code_injective : {a b : DeviceCode} → some a ≡ some b → a ≡ b
code_injective h = ground arith

module _ (svc : Service) where
  -- A saved row is found by its key.
  saved_key :
      (hash : String) (d row : DeviceCode) (s : State)
      → first (device_hash_is hash) s.device_codes ≡ some d
      → row.device_code_hash ≡ d.device_code_hash
      → first (device_hash_is hash) (saved false row s).device_codes ≡ some row
  saved_key hash d row s found key =
      let passes = first_passes (device_hash_is hash) s.device_codes in
      first-save_row (device_hash_is hash) (device_hash_is row.device_code_hash) row s.device_codes
        d found (ground (arith, eq_iff d.device_code_hash row.device_code_hash))
        (ground (arith, eq_iff d.device_code_hash hash, eq_iff row.device_code_hash hash))

  session_keeps_codes :
      (input : CreateInput) (s t : State) (sess : Session)
      → create svc.world svc.session_config input s ≡ (ok sess, t)
      → t.device_codes ≡ s.device_codes
  unfolding create ◌>>=◌
  session_keeps_codes input s t sess h = ground arith

  -- The row after a decision on it is no longer pending.
  decided_row :
      (hash : String) (d : DeviceCode) (user : ℕ) (approved : Bool) (s s' : State)
      → first (device_hash_is hash) s.device_codes ≡ some d
      → Decision svc d user s s' approved
      → (e : DeviceCode) × (first (device_hash_is hash) s'.device_codes ≡ some e)
        × (e.status ≢ pending)
        × (e.device_code_hash ≡ d.device_code_hash)
  decided_row hash d user false s s' found (refuse written) = (
    record d { status = denied },
    ap (λ (t : State). first (device_hash_is hash) t.device_codes) written
        ∙ saved_key hash d (record d { status = denied }) s found refl,
    λ p. ground arith,
    refl,
  )
  decided_row hash d user true s s' found (allow sess t ip agent created written) =
      let row : DeviceCode = record d {
        status = authorized;
        user_id = some user;
        session_id = some sess.id;
      } in
      (
        row,
        ap (λ (t : State). first (device_hash_is hash) t.device_codes) written
            ∙ saved_key hash d row t
                (ap (first (device_hash_is hash)) (session_keeps_codes _ s t sess created) ∙ found)
                refl,
        λ p. ground arith,
        refl,
      )

  reads_then_polls :
      (client : OauthClient) (device_code : String) (d : DeviceCode) (s : State)
      → read_device_code svc device_code s ≡ (ok d, s)
      → exchange_device_code svc client device_code s ≡ poll_found svc client d s
  unfolding exchange_device_code ◌>>=◌
  reads_then_polls client device_code d s h = rw h refl

  read_ok :
      (device_code : String) (d : DeviceCode) (s s' : State)
      → read_device_code svc device_code s ≡ (ok d, s')
      → first (device_hash_is (svc.hash_token device_code)) s.device_codes ≡ some d
  unfolding read_device_code
  read_ok device_code d s s' h = (find_device_ok svc _ _ s s' d h).0

  check_poll_anywhere :
      (client : OauthClient) (d : DeviceCode) (s t : State)
      → (check_poll svc client d s).0 ≡ ok tt
      → check_poll svc client d t ≡ (ok tt, t)
  unfolding check_poll ◌>>=◌
  check_poll_anywhere client d s t h = ground arith

  -- What a poll does with a pending row that passes its checks, in whichever tables.
  poll_found_pending :
      (client : OauthClient) (d : DeviceCode) (s : State)
      → svc.breaks poll_device_code ≡ false
      → d.status ≡ pending
      → check_poll svc client d s ≡ (ok tt, s)
      → poll_found svc client d s ≡ (err authorization_pending, saved false (polled svc d) s)
  unfolding poll_found ◌>>=◌ poll save_device_code
  poll_found_pending client d s works undecided checked = rw checked (rw works (rw undecided refl))

  -- A poll reads a row that passes its checks, and before it goes on the user decides on that row:
  -- read and continuation are together ExchangeDeviceCode. After the decision the row was no longer
  -- pending. The poll goes on with the row that it read, answers authorization_pending, and leaves the
  -- row pending again, so that the decision is lost, an approval as well as a refusal. The driver does
  -- not fail the poll's update.
  pub stale_poll_undoes_decision :
      (client : OauthClient) (device_code : String) (d : DeviceCode) (input : DeviceApproveInput)
      (user : ℕ) (ip agent : String) (s s' : State)
      → svc.breaks poll_device_code ≡ false
      → read_device_code svc device_code s ≡ (ok d, s)
      → (check_poll svc client d s).0 ≡ ok tt
      → first (λ d. str_eq d.user_code input.user_code) s.device_codes ≡ some d
      → device_approve svc input user ip agent s ≡ (ok tt, s')
      → (exchange_device_code svc client device_code s ≡ poll_found svc client d s)
        × ((e : DeviceCode) × (first (device_hash_is (svc.hash_token device_code)) s'.device_codes
              ≡ some e)
            × (e.status ≢ pending))
        × ((poll_found svc client d s').0 ≡ err authorization_pending)
        × ((e : DeviceCode) × (first
                (device_hash_is (svc.hash_token device_code))
                (poll_found svc client d s').1.device_codes
              ≡ some e)
            × (e.status ≡ pending))
  stale_poll_undoes_decision client device_code d input user ip agent s s' works reads checked named
        decided =
      let hash = svc.hash_token device_code in
      let (d', open_row, decision) = device_approve-Decision svc input user ip agent s s' decided in
      let same : d' ≡ d = code_injective (sym open_row.row ∙ named) in
      let (e, left, settled, key) =
        decided_row hash d user input.approved s s' (read_ok device_code d s s reads)
          (subst (λ (x : DeviceCode). Decision svc x user s s' input.approved) same decision) in
      let undecided : d.status ≡ pending =
        ap (λ (x : DeviceCode). x.status) (sym same) ∙ open_row.undecided in
      let ran =
        poll_found_pending client d s' works undecided
          (check_poll_anywhere client d s s' checked) in
      (
        reads_then_polls client device_code d s reads,
        (e, left, settled),
        ap (λ (r : Result TokenResponse × State). r.0) ran,
        (
          polled svc d,
          ap (λ (r : Result TokenResponse × State). first (device_hash_is hash) r.1.device_codes)
                ran
              ∙ saved_key hash e (polled svc d) s' left (sym key),
          undecided,
        ),
      )
