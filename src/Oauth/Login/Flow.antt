-- ===== src/Oauth/Login/Flow.antt =====
-- Each operation of the authorization endpoint keeps the gate.
use orion_auth_backend.Prelude.{
  ℕ, String, ◌≡◌, refl, Bool, true, false, ◌&&◌, Option, none, some, inl, inr, arith, save_row-All,
  first-All, ◌==◌, ltb, Bool-cases,
}
use orion_auth_backend.Errors.{Error}
use orion_auth_backend.Exec.{Exec, ok, or_raise, found, optional, require, ignore, ◌>>=◌}
use orion_auth_backend.Model.{AuthorizationRequest, OauthClient, State, User}
use orion_auth_backend.World.{update_auth_request}
use orion_auth_backend.Oauth.Service.{Service, MfaValidator}
use orion_auth_backend.Oauth.Repository.{client_by_id, user_by_id}
use orion_auth_backend.Oauth.Repository.Flow.{active_consent}
use orion_auth_backend.Oauth.Login.{
  AuthorizeLoginInput, AuthorizeRegisterInput, AuthorizeMfaInput, identify, confirm, live_request,
  open_request, has_mfa_or_false, save_step, admit, authorize_login, await_verification,
  authorize_register, check_code, consent_left, admit_factor, authorize_mfa, resume,
  resume_after_external_login,
}
use orion_auth_backend.Oauth.Login.Gate.{
  IsGated, Gated, IsGateKeeping, quiet-IsGateKeeping, bind-IsGateKeeping, bind_value-IsGateKeeping,
  pure-IsGateKeeping, lift-IsGateKeeping, require-IsGateKeeping, fail_if-IsGateKeeping,
}

module _ (svc : Service) where
  pub save_step-IsGateKeeping :
      (row : AuthorizationRequest) → IsGated row → IsGateKeeping (save_step svc row)
  unfolding save_step
  save_step-IsGateKeeping row g = record {
    at = λ s h. record {
      rows = elim (Bool-cases (svc.breaks update_auth_request)) [
        | inl fails ↦ rw fails h.rows
        | inr done ↦
            rw done (save_row-All IsGated (λ r. r.id == row.id) row s.auth_requests g h.rows)
      ];
    };
  }

  pub live_request_quiet :
      (id : ℕ) (s : State) → (live_request svc id s).1.auth_requests ≡ s.auth_requests
  unfolding live_request
  live_request_quiet id s = ground arith

  pub live_request_finds :
      (id : ℕ) (s : State) (req : AuthorizationRequest)
      → Gated s
      → live_request svc id s ≡ (ok req, (live_request svc id s).1)
      → IsGated req
  unfolding live_request
  live_request_finds id s req h e =
      first-All IsGated (λ r. r.id == id && ltb svc.wall r.expires_at) s.auth_requests req h.rows
        (ground arith)

  open_request_quiet :
      (id : ℕ) (already : String) (s : State)
      → (open_request svc id already s).1.auth_requests ≡ s.auth_requests
  unfolding open_request
  open_request_quiet id already s = ground arith

  open_request_finds :
      (id : ℕ) (already : String) (s : State) (req : AuthorizationRequest)
      → Gated s
      → open_request svc id already s ≡ (ok req, (open_request svc id already s).1)
      → IsGated req
  unfolding open_request
  open_request_finds id already s req h e =
      first-All IsGated (λ r. r.id == id && ltb svc.wall r.expires_at) s.auth_requests req h.rows
        (ground arith)

  pub consent_quiet :
      (user client : ℕ) (s : State)
      → (optional (active_consent svc.world user client) s).1.auth_requests ≡ s.auth_requests
  unfolding active_consent ◌>>=◌
  consent_quiet user client s = ground arith

  pub client_quiet :
      (e : Error) (id : ℕ) (s : State)
      → (or_raise e (client_by_id svc.world id) s).1.auth_requests ≡ s.auth_requests
  unfolding client_by_id ◌>>=◌
  client_quiet e id s = ground arith

  pub has_mfa_quiet :
      (v : Option MfaValidator) (user : ℕ) (s : State)
      → (has_mfa_or_false svc v user s).1.auth_requests ≡ s.auth_requests
  unfolding has_mfa_or_false
  has_mfa_quiet none user s = refl
  has_mfa_quiet (some v) user s = v.has_mfa_keeps user s

  check_code_quiet :
      (v : Option MfaValidator) (user : ℕ) (code : String) (s : State)
      → (check_code svc v user code s).1.auth_requests ≡ s.auth_requests
  unfolding check_code
  check_code_quiet none user code s = refl
  check_code_quiet (some v) user code s = v.validate_code_keeps user code s

  identify-IsGated :
      (req : AuthorizationRequest) (user : ℕ) (method : String) (remember needs_mfa needs : Bool)
      → IsGated req
      → IsGated (identify svc req user method remember needs_mfa needs)
  identify-IsGated req user method remember needs_mfa needs g = ground arith

  confirm-IsGated :
      (req : AuthorizationRequest) (user : ℕ) (covered needs : Bool)
      → req.user_id ≡ some user
      → IsGated (confirm svc req covered needs)
  confirm-IsGated req user covered needs u = ground arith

  admit-IsGateKeeping :
      (req : AuthorizationRequest) (u : User) (client : OauthClient) (remember : Bool)
      (ip agent : String)
      → IsGated req
      → IsGateKeeping (admit svc req u client remember ip agent)
  unfolding admit
  admit-IsGateKeeping req u client remember ip agent g =
      bind-IsGateKeeping (quiet-IsGateKeeping _ (consent_quiet u.id req.client_id)) λ consent.
        bind-IsGateKeeping (quiet-IsGateKeeping _ (has_mfa_quiet svc.mfa_validator u.id)) λ has.
          bind-IsGateKeeping (lift-IsGateKeeping _) λ needs_mfa.
            bind-IsGateKeeping
              (save_step-IsGateKeeping _ (identify-IsGated req u.id "pwd" remember needs_mfa _ g))
              λ _. pure-IsGateKeeping _

  pub authorize_login-IsGateKeeping :
      (input : AuthorizeLoginInput) (ip agent : String)
      → IsGateKeeping (authorize_login svc input ip agent)
  unfolding authorize_login
  authorize_login-IsGateKeeping input ip agent =
      bind_value-IsGateKeeping IsGated (quiet-IsGateKeeping _ (open_request_quiet _ _))
        (open_request_finds _ _)
        λ req g.
          bind-IsGateKeeping (quiet-IsGateKeeping _ (svc.user_service.authenticate_keeps _)) λ u.
            bind-IsGateKeeping (quiet-IsGateKeeping _ (client_quiet _ _)) λ client.
              bind-IsGateKeeping (lift-IsGateKeeping _)
                λ _. admit-IsGateKeeping req u client input.remember_me ip agent g

  await_verification-IsGated :
      (req : AuthorizationRequest) (user : ℕ)
      → IsGated req
      → IsGated (await_verification svc req user)
  await_verification-IsGated req user g = ground arith

  ignored_quiet :
      (m : Exec State Unit) (s : State)
      → (m s).1.auth_requests ≡ s.auth_requests
      → (ignore m s).1.auth_requests ≡ s.auth_requests
  unfolding ◌>>=◌
  ignored_quiet m s e = e

  pub authorize_register-IsGateKeeping :
      (input : AuthorizeRegisterInput) → IsGateKeeping (authorize_register svc input)
  unfolding authorize_register
  authorize_register-IsGateKeeping input =
      bind_value-IsGateKeeping IsGated (quiet-IsGateKeeping _ (open_request_quiet _ _))
        (open_request_finds _ _)
        λ req g. bind-IsGateKeeping (quiet-IsGateKeeping _ (client_quiet _ _)) λ client.
          bind-IsGateKeeping (quiet-IsGateKeeping _ (svc.user_service.register_keeps _)) λ u.
            bind-IsGateKeeping (save_step-IsGateKeeping _ (await_verification-IsGated req u.id g))
              λ _.
                bind-IsGateKeeping
                  (quiet-IsGateKeeping _
                    λ s. ignored_quiet _ s (svc.user_service.send_keeps u.id (some req.id) s))
                  λ _. pure-IsGateKeeping _

  consent_left_quiet :
      (req : AuthorizationRequest) (covered : Bool) (s : State)
      → (consent_left svc req covered s).1.auth_requests ≡ s.auth_requests
  unfolding consent_left client_by_id ◌>>=◌
  consent_left_quiet req true s = refl
  consent_left_quiet req false s = ground arith

  admit_factor-IsGateKeeping :
      (req : AuthorizationRequest) (user : ℕ)
      → req.user_id ≡ some user
      → IsGateKeeping (admit_factor svc req user)
  unfolding admit_factor
  admit_factor-IsGateKeeping req user u =
      bind-IsGateKeeping (quiet-IsGateKeeping _ (consent_quiet user req.client_id)) λ consent.
        bind-IsGateKeeping (quiet-IsGateKeeping _ (consent_left_quiet req _)) λ needs.
          bind-IsGateKeeping (save_step-IsGateKeeping _ (confirm-IsGated req user _ needs u))
            λ _. pure-IsGateKeeping _

  required_is :
      (e : Error) (o : Option ℕ) (s : State) (user : ℕ)
      → require e o s ≡ (ok user, (require e o s).1)
      → o ≡ some user
  unfolding ◌>>=◌
  required_is e o s user h = ground arith

  pub authorize_mfa-IsGateKeeping :
      (input : AuthorizeMfaInput) → IsGateKeeping (authorize_mfa svc input)
  unfolding authorize_mfa
  authorize_mfa-IsGateKeeping input =
      bind-IsGateKeeping (quiet-IsGateKeeping _ (live_request_quiet _)) λ req.
        bind_value-IsGateKeeping (λ user. req.user_id ≡ some user) (require-IsGateKeeping _ _)
          (λ s user h e. required_is _ req.user_id s user e)
          λ user u. bind-IsGateKeeping (fail_if-IsGateKeeping _ _) λ _.
            bind-IsGateKeeping (quiet-IsGateKeeping _ (check_code_quiet svc.mfa_validator _ _))
              λ _. admit_factor-IsGateKeeping req user u

  user_quiet :
      (e : Error) (id : ℕ) (s : State)
      → (found e (user_by_id svc.world id) s).1.auth_requests ≡ s.auth_requests
  unfolding user_by_id ◌>>=◌
  user_quiet e id s = ground arith

  resume-IsGateKeeping :
      (req : AuthorizationRequest) (u : User) (client : OauthClient) (provider : String)
      → IsGated req
      → IsGateKeeping (resume svc req u client provider)
  unfolding resume
  resume-IsGateKeeping req u client provider g =
      bind-IsGateKeeping (quiet-IsGateKeeping _ (consent_quiet u.id req.client_id)) λ consent.
        bind-IsGateKeeping (quiet-IsGateKeeping _ (has_mfa_quiet svc.mfa_validator u.id))
          λ needs_mfa.
            bind-IsGateKeeping
              (save_step-IsGateKeeping _
                (identify-IsGated req u.id _ req.remember_me needs_mfa _ g))
              λ _. pure-IsGateKeeping _

  pub resume_after_external_login-IsGateKeeping :
      (request_id user : ℕ) (provider : String)
      → IsGateKeeping (resume_after_external_login svc request_id user provider)
  unfolding resume_after_external_login
  resume_after_external_login-IsGateKeeping request_id user provider =
      bind_value-IsGateKeeping IsGated (quiet-IsGateKeeping _ (open_request_quiet _ _))
        (open_request_finds _ _)
        λ req g. bind-IsGateKeeping (quiet-IsGateKeeping _ (user_quiet _ _)) λ u.
          bind-IsGateKeeping (fail_if-IsGateKeeping _ _) λ _.
            bind-IsGateKeeping (quiet-IsGateKeeping _ (client_quiet _ _))
              λ client. resume-IsGateKeeping req u client provider g
