-- ===== src/Oauth/Login/Reach.antt =====
-- Any interleaving of the operations of the authorization endpoint, each by a service of its own, as
-- steps on the tables.
use orion_auth_backend.Prelude.{
  ℕ, String, ◌≡◌, true, ◌&&◌, [], some, inl, inr, arith, first-All, ◌==◌, ltb, Option-cases,
}
use orion_auth_backend.Errors.{Error}
use orion_auth_backend.Exec.{ok, found, ◌>>=◌}
use orion_auth_backend.Model.{AuthorizationRequest, OauthClient, State, is_ready}
use orion_auth_backend.Oauth.Service.{Service}
use orion_auth_backend.Oauth.Repository.{client_by_id}
use orion_auth_backend.Oauth.Repository.Flow.{auth_request_by_id, par_by_uri, remove_par}
use orion_auth_backend.Exec.{ignore}
use orion_auth_backend.Oauth.Authorize.{
  AuthorizeConsentInput, authorize_consent, complete_authorize_first_party,
}
use orion_auth_backend.Oauth.Params.{InitAuthorizeParams}
use orion_auth_backend.Oauth.Start.Init.{init_authorize}
use orion_auth_backend.Oauth.Start.Pushed.{create_par, init_authorize_from_par}
use orion_auth_backend.Oauth.Start.Gate.{init_authorize-IsGateKeeping}
use orion_auth_backend.Oauth.Login.{
  AuthorizeLoginInput, AuthorizeRegisterInput, AuthorizeMfaInput, authorize_login,
  authorize_register, authorize_mfa, resume_after_external_login,
}
use orion_auth_backend.Oauth.Login.Verified.{UrlLibrary, complete_after_verification}
use orion_auth_backend.Oauth.Login.Gate.{
  IsGated, Gated, same-Gated, IsGateKeeping, quiet-IsGateKeeping, bind-IsGateKeeping,
  lift-IsGateKeeping, fail_if-IsGateKeeping,
}
use orion_auth_backend.Oauth.Login.Flow.{
  authorize_login-IsGateKeeping, authorize_register-IsGateKeeping, authorize_mfa-IsGateKeeping,
  resume_after_external_login-IsGateKeeping,
}
use orion_auth_backend.Oauth.Login.Ends.{
  complete_after_verification-IsGateKeeping, complete_authorize_first_party-IsGateKeeping,
  authorize_consent-IsGateKeeping,
}

module _ (svc : Service) where
  create_par_quiet :
      (client : OauthClient) (p : InitAuthorizeParams) (s : State)
      → (create_par svc client p s).1.auth_requests ≡ s.auth_requests
  unfolding create_par
  create_par_quiet client p s = ground arith

  par_quiet :
      (e : Error) (uri : String) (s : State)
      → (found e (par_by_uri svc.world uri) s).1.auth_requests ≡ s.auth_requests
  unfolding par_by_uri ◌>>=◌
  par_quiet e uri s = ground arith

  remove_par_quiet :
      (uri : String) (s : State)
      → (ignore (remove_par svc.world uri) s).1.auth_requests ≡ s.auth_requests
  unfolding remove_par ◌>>=◌
  remove_par_quiet uri s = ground arith

  client_quiet :
      (id : ℕ) (s : State) → (client_by_id svc.world id s).1.auth_requests ≡ s.auth_requests
  unfolding client_by_id ◌>>=◌
  client_quiet id s = ground arith

  init_authorize_from_par-IsGateKeeping :
      (uri client_id cookie : String)
      → IsGateKeeping (init_authorize_from_par svc uri client_id cookie)
  unfolding init_authorize_from_par
  init_authorize_from_par-IsGateKeeping uri client_id cookie =
      bind-IsGateKeeping (quiet-IsGateKeeping _ (par_quiet _ uri)) λ par.
        bind-IsGateKeeping (fail_if-IsGateKeeping _ _) λ _.
          bind-IsGateKeeping (quiet-IsGateKeeping _ (remove_par_quiet uri)) λ _.
            bind-IsGateKeeping (lift-IsGateKeeping _) λ p.
              bind-IsGateKeeping (quiet-IsGateKeeping _ (client_quiet par.client_id))
                λ client. init_authorize-IsGateKeeping svc client _

infix 40 ◌⟶◌ ◌⟶*◌
-- One call, by a service with a clock, a generator and a driver of its own.
pub data ◌⟶◌ : State → State → Type 0 where
  starts :
      (svc : Service) (client : OauthClient) (p : InitAuthorizeParams) {s : State}
      → s ⟶ (init_authorize svc client p s).1
  pushes :
      (svc : Service) (client : OauthClient) (p : InitAuthorizeParams) {s : State}
      → s ⟶ (create_par svc client p s).1
  starts_pushed :
      (svc : Service) (uri client_id cookie : String) {s : State}
      → s ⟶ (init_authorize_from_par svc uri client_id cookie s).1
  logs_in :
      (svc : Service) (input : AuthorizeLoginInput) (ip agent : String) {s : State}
      → s ⟶ (authorize_login svc input ip agent s).1
  registers :
      (svc : Service) (input : AuthorizeRegisterInput) {s : State}
      → s ⟶ (authorize_register svc input s).1
  confirms :
      (svc : Service) (input : AuthorizeMfaInput) {s : State} → s ⟶ (authorize_mfa svc input s).1
  resumes :
      (svc : Service) (request user : ℕ) (provider : String) {s : State}
      → s ⟶ (resume_after_external_login svc request user provider s).1
  verifies :
      (url : UrlLibrary) (svc : Service) (request user : ℕ) (ip agent : String) {s : State}
      → s ⟶ (complete_after_verification url svc request user ip agent s).1
  consents :
      (svc : Service) (input : AuthorizeConsentInput) (ip agent : String) {s : State}
      → s ⟶ (authorize_consent svc input ip agent s).1
  completes :
      (svc : Service) (request : ℕ) (ip agent : String) {s : State}
      → s ⟶ (complete_authorize_first_party svc request ip agent s).1

pub data ◌⟶*◌ : State → State → Type 0 where
  here : {s : State} → s ⟶* s
  next : {s t u : State} → s ⟶ t → t ⟶* u → s ⟶* u

step-Gated : {s t : State} → s ⟶ t → Gated s → Gated t
step-Gated (starts svc client p) h = (init_authorize-IsGateKeeping svc client p).at _ h
step-Gated (pushes svc client p {s}) h = same-Gated s _ (create_par_quiet svc client p s) h
step-Gated (starts_pushed svc uri client_id cookie) h =
    (init_authorize_from_par-IsGateKeeping svc uri client_id cookie).at _ h
step-Gated (logs_in svc input ip agent) h =
    (authorize_login-IsGateKeeping svc input ip agent).at _ h
step-Gated (registers svc input) h = (authorize_register-IsGateKeeping svc input).at _ h
step-Gated (confirms svc input) h = (authorize_mfa-IsGateKeeping svc input).at _ h
step-Gated (resumes svc request user provider) h =
    (resume_after_external_login-IsGateKeeping svc request user provider).at _ h
step-Gated (verifies url svc request user ip agent) h =
    (complete_after_verification-IsGateKeeping svc url request user ip agent).at _ h
step-Gated (consents svc input ip agent) h =
    (authorize_consent-IsGateKeeping svc input ip agent).at _ h
step-Gated (completes svc request ip agent) h =
    (complete_authorize_first_party-IsGateKeeping svc request ip agent).at _ h

-- From tables without authorization requests, any sequence of calls of the authorization endpoint,
-- returning or failing, leaves every stored request authenticated only for a known user and at a known
-- time, and consented only once it is authenticated.
pub reached-Gated : {s t : State} → s.auth_requests ≡ [] → s ⟶* t → Gated t
reached-Gated {s} empty steps = go steps (record { rows = rw empty tt })
  where
    go : {s t : State} → s ⟶* t → Gated s → Gated t
    go here h = h
    go (next step rest) h = go rest (step-Gated step h)

-- In tables that the endpoint's calls reach, a request that is ready has a user, so completeAuthorize
-- dereferences no nil.
pub ready-known :
    (svc : Service) {s t : State} (id : ℕ) (req : AuthorizationRequest)
    → s.auth_requests ≡ []
    → s ⟶* t
    → auth_request_by_id svc.world id t ≡ (ok (some req), t)
    → is_ready svc.wall req ≡ true
    → (user : ℕ) × (req.user_id ≡ some user)
unfolding auth_request_by_id is_ready ◌>>=◌
ready-known svc {t} id req empty steps h ready =
    let gated = reached-Gated empty steps in
    let g =
      first-All IsGated (λ r. r.id == id && ltb svc.wall r.expires_at) t.auth_requests req
        gated.rows (ground arith) in
    elim (Option-cases req.user_id) [
      | inl missing ↦ let k = g.known (ground arith) in absurd (ground arith)
      | inr (user, known) ↦ (user, known)
    ]
