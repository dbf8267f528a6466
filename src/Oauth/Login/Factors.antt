-- ===== src/Oauth/Login/Factors.antt =====
-- What a login and a second factor leave in the stored request.
use orion_auth_backend.Prelude.{
  ℕ, String, ◌≡◌, refl, sym, ap, ◌∙◌, subst, Bool, true, false, not, ◌&&◌, some, arith, first,
  save_row, first-save_row, first_passes, ◌==◌, ltb,
}
use orion_auth_backend.Exec.{Result, ok, bind_ok, lift_ok, pure_ok}
use orion_auth_backend.Model.{AuthorizationRequest, OauthClient, State, User, is_ready}
use orion_auth_backend.Oauth.Service.{Service, MfaValidator}
use orion_auth_backend.Oauth.Login.{
  AuthorizeLoginInput, AuthorizeLoginResponse, AuthorizeMfaInput, identify, open_request, save_step,
  admit, authorize_login,
}
use orion_auth_backend.Oauth.Login.Flow.{consent_quiet, client_quiet, has_mfa_quiet}

module _ (svc : Service) where
  -- The live row of a request.
  abbrev pub is_live : ℕ → AuthorizationRequest → Bool
  is_live id r = r.id == id && ltb svc.wall r.expires_at

  open_request_ok :
      (id : ℕ) (already : String) (s s' : State) (req : AuthorizationRequest)
      → open_request svc id already s ≡ (ok req, s')
      → (s' ≡ s) × (first (is_live id) s.auth_requests ≡ some req) × (req.authenticated ≡ false)
  unfolding open_request
  open_request_ok id already s s' req h = (ground arith, ground arith, ground arith)

  save_step_ok :
      (row : AuthorizationRequest) (s s' : State) (u : Unit {0})
      → save_step svc row s ≡ (ok u, s')
      → s'.auth_requests ≡ save_row (λ r. r.id == row.id) row s.auth_requests
  unfolding save_step
  save_step_ok row s s' u h = ground arith

  ended :
      {A : Type 0} (p : Result A × State) (s s1 : State) (r : Result A)
      → p ≡ (r, s1)
      → p.1.auth_requests ≡ s.auth_requests
      → s1.auth_requests ≡ s.auth_requests
  ended {A} p s s1 r e q = sym (ap (λ (x : Result A × State). x.1.auth_requests) e) ∙ q

  -- What stays known of a login between its steps.
  record Admitted (req : AuthorizationRequest) (user : ℕ) (s s' : State)
      (resp : AuthorizeLoginResponse) : Type 0 where
    remember : Bool
    stored :
        s'.auth_requests
        ≡ save_row
            (λ r. r.id == req.id)
            (identify svc req user "pwd" remember resp.requires_mfa resp.requires_consent)
            s.auth_requests
    answered : resp.authenticated ≡ not resp.requires_mfa

  admit_ok :
      (req : AuthorizationRequest) (u : User) (client : OauthClient) (remember : Bool)
      (ip agent : String) (s s' : State) (resp : AuthorizeLoginResponse)
      → admit svc req u client remember ip agent s ≡ (ok resp, s')
      → Admitted req u.id s s' resp
  unfolding admit
  admit_ok req u client remember ip agent s s' resp h =
      let (consent, s1, e1, k1) = bind_ok _ _ s h in
      let (has, s2, e2, k2) = bind_ok _ _ s1 k1 in
      let (needs_mfa, s3, e3, k3) = bind_ok _ _ s2 k2 in
      let (_, s4, e4, k4) = bind_ok _ _ s3 k3 in
      let (same, there) = pure_ok _ _ _ _ k4 in
      let quiet =
        ended _ s1 s2 _ e2 (has_mfa_quiet svc svc.mfa_validator u.id s1)
        ∙ ended _ s s1 _ e1 (consent_quiet svc u.id req.client_id s) in
      let lifted = (lift_ok _ _ e3).1 in
      let saved = save_step_ok _ _ _ _ e4 in
      let rows = saved ∙ ap (save_row _ _) (ap (λ (t : State). t.auth_requests) lifted ∙ quiet) in
      subst (λ t. Admitted req u.id s t resp) there
        (subst (Admitted req u.id s s4) same
          (record { remember = remember; stored = rows; answered = refl }))

  -- The stored request after a login.
  pub record LeavesLogin (id : ℕ) (s : State) (user : ℕ) (resp : AuthorizeLoginResponse)
      : Type 0 where
    pub row : AuthorizationRequest
    pub found_live : first (is_live id) s.auth_requests ≡ some row
    pub known : row.user_id ≡ some user
    pub same_stage : row.authenticated ≡ resp.authenticated
    pub waits_for_factor : resp.authenticated ≡ not resp.requires_mfa
    pub done :
        resp.requires_mfa ≡ false → resp.requires_consent ≡ false → is_ready svc.wall row ≡ true

  Admitted-LeavesLogin :
      (id user : ℕ) (req : AuthorizationRequest) (s s' : State) (resp : AuthorizeLoginResponse)
      → first (is_live id) s.auth_requests ≡ some req
      → req.authenticated ≡ false
      → Admitted req user s s' resp
      → LeavesLogin id s' user resp
  unfolding is_ready
  Admitted-LeavesLogin id user req s s' resp f unconfirmed a =
      let row = identify svc req user "pwd" a.remember resp.requires_mfa resp.requires_consent in
      let live = rw f at (first_passes (is_live id) s.auth_requests) in
      let kept =
        first-save_row (is_live id) (λ r. r.id == req.id) row s.auth_requests req f (ground arith)
          live in
      record {
        row = row;
        found_live = ap (first (is_live id)) a.stored ∙ kept;
        known = refl;
        same_stage = rw unconfirmed (ground (arith, a.answered));
        waits_for_factor = a.answered;
        done = λ m c. rw m (rw c (ground arith));
      }

  -- A login that returns was accepted by the user service for a user, and leaves the live request with
  -- that user. The request is authenticated exactly when no second factor is asked for, and when
  -- neither a factor nor a consent is asked for it is ready for the code.
  pub authorize_login-LeavesLogin :
      (input : AuthorizeLoginInput) (ip agent : String) (s s' : State)
      (resp : AuthorizeLoginResponse)
      → authorize_login svc input ip agent s ≡ (ok resp, s')
      → (user : User) × ((svc.user_service.authenticate
            (record { email = input.email; password = input.password })
            s).0
          ≡ ok user)
        × LeavesLogin input.request_id s' user.id resp
  unfolding authorize_login
  authorize_login-LeavesLogin input ip agent s s' resp h =
      let (req, s1, e1, k1) = bind_ok _ _ s h in
      let (u, s2, e2, k2) = bind_ok _ _ s1 k1 in
      let (client, s3, e3, k3) = bind_ok _ _ s2 k2 in
      let (_, s4, e4, k4) = bind_ok _ _ s3 k3 in
      let (same, live, unconfirmed) = open_request_ok _ _ _ _ _ e1 in
      let quiet =
        ap (λ (t : State). t.auth_requests) ((lift_ok _ _ e4).1)
        ∙ ended _ s2 s3 _ e3 (client_quiet svc _ _ s2)
        ∙ ended _ s1 s2 _ e2 (svc.user_service.authenticate_keeps _ s1)
        ∙ ap (λ (t : State). t.auth_requests) same in
      (
        u,
        ap
              (λ t.
                (svc.user_service.authenticate
                  (record { email = input.email; password = input.password }) t).0)
              (sym same)
            ∙ ap (λ (p : Result User × State). p.0) e2,
        Admitted-LeavesLogin input.request_id u.id req s4 s' resp
            (ap (first (is_live input.request_id)) quiet ∙ live) unconfirmed
            (admit_ok req u client input.remember_me ip agent s4 s' resp k4),
      )

  -- What a completed second factor proves.
  pub record IsConfirmed (input : AuthorizeMfaInput) (s : State) : Type 0 where
    pub validator : MfaValidator
    pub configured : svc.mfa_validator ≡ some validator
    pub request : AuthorizationRequest
    pub found_live : first (is_live input.request_id) s.auth_requests ≡ some request
    pub user : ℕ
    pub recorded : request.user_id ≡ some user
    pub unconfirmed : request.authenticated ≡ false
    pub accepts : (validator.validate_code user input.code s).0 ≡ ok true
