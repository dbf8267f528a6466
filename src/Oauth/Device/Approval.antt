-- ===== src/Oauth/Device/Approval.antt =====
-- The user's decision on a device code: what it demands of the code and what it writes.
use orion_auth_backend.Prelude.{
  ℕ, ◌≤◌, String, ◌≡◌, Bool, true, false, not, some, arith, first, str_eq,
}
use orion_auth_backend.Errors.{Error, server_error}
use orion_auth_backend.Exec.{ok, ◌>>=◌, bind_ok, or_raise, branch}
use orion_auth_backend.Model.{DeviceCode, pending, denied, authorized, State, Session}
use orion_auth_backend.World.{update_device_code}
use orion_auth_backend.Session.{create}
use orion_auth_backend.Oauth.Service.{Service}
use orion_auth_backend.Oauth.Repository.{save_device_code, user_by_id}
use orion_auth_backend.Oauth.Device.{
  DeviceApproveInput, pending_device_code, approval_policy, allow_device, device_approve,
}
use orion_auth_backend.Oauth.Device.Polling.{saved}

-- The row that a user code names, still open for a decision.
pub record IsOpen (svc : Service) (user_code : String) (s : State) (d : DeviceCode) : Type 0 where
  pub row : first (λ d. str_eq d.user_code user_code) s.device_codes ≡ some d
  pub undecided : d.status ≡ pending
  pub live : svc.wall ≤ d.expires_at

-- What an accepted decision wrote.
pub data Decision (svc : Service) (d : DeviceCode) (user : ℕ) (s s' : State) : Bool → Type 0 where
  refuse : s' ≡ saved false (record d { status = denied }) s → Decision svc d user s s' false
  allow :
      (sess : Session) (t : State) (ip agent : String)
      → create svc.world svc.session_config
          (record { user_id = user; ip_address = ip; user_agent = agent; extended = false })
          s
        ≡ (ok sess, t)
      → s'
        ≡ saved false
            (record d { status = authorized; user_id = some user; session_id = some sess.id })
            t
      → Decision svc d user s s' true

module _ (svc : Service) where
  pending_device_code_ok :
      (user_code : String) (s s' : State) (d : DeviceCode)
      → pending_device_code svc user_code s ≡ (ok d, s')
      → (s' ≡ s) × IsOpen svc user_code s d
  unfolding pending_device_code
  pending_device_code_ok user_code s s' d h =
      (ground arith, record { row = ground arith; undecided = ground arith; live = ground arith })

  save_ok :
      (d : DeviceCode) (s s' : State)
      → save_device_code svc.world update_device_code d s ≡ (ok tt, s')
      → s' ≡ saved false d s
  unfolding save_device_code ◌>>=◌
  save_ok d s s' h = ground arith

  or_raise_save_ok :
      (e : Error) (d : DeviceCode) (s s' : State)
      → or_raise e (save_device_code svc.world update_device_code d) s ≡ (ok tt, s')
      → s' ≡ saved false d s
  unfolding save_device_code ◌>>=◌
  or_raise_save_ok e d s s' h = ground arith

  create_ok :
      (e : Error) (user : ℕ) (ip agent : String) (s s' : State) (sess : Session)
      → or_raise e
          (create svc.world svc.session_config
            (record { user_id = user; ip_address = ip; user_agent = agent; extended = false }))
          s
        ≡ (ok sess, s')
      → create svc.world svc.session_config
          (record { user_id = user; ip_address = ip; user_agent = agent; extended = false })
          s
        ≡ (ok sess, s')
  unfolding ◌>>=◌
  create_ok e user ip agent s s' sess h = ground arith

  policy_state :
      (d : DeviceCode) (user : ℕ) (ip agent : String) (s s' : State)
      → approval_policy svc d user ip agent s ≡ (ok tt, s')
      → s' ≡ s
  unfolding approval_policy user_by_id ◌>>=◌
  policy_state d user ip agent s s' h = ground arith

  allow_device-Decision :
      (d : DeviceCode) (user : ℕ) (ip agent : String) (s s' : State)
      → allow_device svc d user ip agent s ≡ (ok tt, s')
      → Decision svc d user s s' true
  unfolding allow_device
  allow_device-Decision d user ip agent s s' h =
      let (u, s1, e1, k1) = bind_ok _ _ s h in
      let (sess, s2, e2, k2) = bind_ok _ _ s1 k1 in
      let same : s1 ≡ s = policy_state d user ip agent s s1 e1 in
      allow sess s2 ip agent
        (rw same at
          (create_ok (server_error "failed to create session") user ip agent s1 s2 sess e2))
        (or_raise_save_ok (server_error "failed to update device code")
          (record d { status = authorized; user_id = some user; session_id = some sess.id }) s2 s'
          k2)

  branch-Decision :
      (approved : Bool) (d : DeviceCode) (user : ℕ) (ip agent : String) (s s' : State)
      → branch
          (not approved)
          (save_device_code svc.world update_device_code (record d { status = denied }))
          (allow_device svc d user ip agent)
          s
        ≡ (ok tt, s')
      → Decision svc d user s s' approved
  unfolding ◌>>=◌
  branch-Decision true d user ip agent s s' h = allow_device-Decision d user ip agent s s' h
  branch-Decision false d user ip agent s s' h =
      refuse (save_ok (record d { status = denied }) s s' h)

  -- A decision that is accepted was made on a row that the user code names, pending and not
  -- expired. A refusal saves the row as denied; an approval first creates a session of the user
  -- and then saves the row as authorized, for that user and that session.
  pub device_approve-Decision :
      (input : DeviceApproveInput) (user : ℕ) (ip agent : String) (s s' : State)
      → device_approve svc input user ip agent s ≡ (ok tt, s')
      → (d : DeviceCode) × IsOpen svc input.user_code s d × Decision svc d user s s' input.approved
  unfolding device_approve
  device_approve-Decision input user ip agent s s' h =
      let (d, s1, e1, k1) = bind_ok _ _ s h in
      let (same, open_row) = pending_device_code_ok input.user_code s s1 d e1 in
      (d, open_row, branch-Decision input.approved d user ip agent s s' (rw same at k1))
