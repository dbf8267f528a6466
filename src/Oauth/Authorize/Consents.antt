-- ===== src/Oauth/Authorize/Consents.antt =====
-- The consent of the user: what a code that follows it stands for, and that a request is spent.
use orion_auth_backend.Prelude.{
  ℕ, String, ◌≡◌, ◌≢◌, refl, sym, ap, ◌∙◌, true, false, not, List, [], ◌∷◌, Option, none, some,
  arith, first, first_passes, first-select, select, ◌==◌, IsSubset, IsSubset-trans,
}
use orion_auth_backend.Errors.{Error, invalid_request, server_error}
use orion_auth_backend.Exec.{
  Result, ok, ◌>>=◌, bind_ok, found, or_raise, lift_ok, ends_ok, optional,
}
use orion_auth_backend.Model.{AuthorizationRequest, State, Consent}
use orion_auth_backend.World.{World, delete_auth_request}
use orion_auth_backend.Oauth.Scopes.{filter_scopes}
use orion_auth_backend.Oauth.Scopes.Laws.{filter_scopes-IsSubset}
use orion_auth_backend.Oauth.Service.{Service, PolicyResult, judge_scopes, judge_scopes-IsSubset}
use orion_auth_backend.Oauth.Repository.{user_by_id}
use orion_auth_backend.Oauth.Repository.Flow.{
  auth_request_by_id, save_auth_request, active_consent, insert_consent, save_consent,
}
use orion_auth_backend.Oauth.Authorize.{
  AuthorizeConsentInput, AuthorizeConsentResponse, complete_authorize_first_party, check_consent,
  consent_policy, store_consent, authorize_consent, non_empty_granted,
}
use orion_auth_backend.Oauth.Authorize.Laws.{
  is_request, Completed, complete_authorize-Completed, KeepsFlow,
}

-- The request with the consent that was given.
abbrev pub consented : AuthorizationRequest → List String → AuthorizationRequest
consented req granted = record req { consent_given = true; scopes = granted }

module _ (svc : Service) where
  find_request_ok :
      (id : ℕ) (e : Error) (s s' : State) (req : AuthorizationRequest)
      → found e (auth_request_by_id svc.world id) s ≡ (ok req, s')
      → (first (is_request svc.world id) s.auth_requests ≡ some req) × (s' ≡ s)
  unfolding auth_request_by_id ◌>>=◌
  find_request_ok id e s s' req h = (ground arith, ground arith)

  check_consent_ok :
      (req : AuthorizationRequest) (s s' : State) (user : ℕ)
      → check_consent svc req s ≡ (ok user, s')
      → (s' ≡ s) × (req.authenticated ≡ true) × (req.user_id ≡ some user)
  unfolding check_consent
  check_consent_ok req s s' user h = (ground arith, ground arith, ground arith)

  consent_policy-eq-judge :
      (req : AuthorizationRequest) (user : ℕ) (granted : List String) (ip agent : String)
      (s : State)
      → (verdict : Option PolicyResult) × (consent_policy svc req user granted ip agent s
          ≡ (judge_scopes granted verdict, s))
  unfolding consent_policy user_by_id ◌>>=◌
  consent_policy-eq-judge req user granted ip agent s = (_, refl)

  consent_policy_ok :
      (req : AuthorizationRequest) (user : ℕ) (offered granted : List String) (ip agent : String)
      (s s' : State)
      → consent_policy svc req user offered ip agent s ≡ (ok granted, s')
      → (s' ≡ s) × IsSubset granted offered
  consent_policy_ok req user offered granted ip agent s s' h =
      let (verdict, run) = consent_policy-eq-judge req user offered ip agent s in
      let e = sym run ∙ h in
      (
        ap (λ (p : Result (List String) × State). p.1) (sym e),
        judge_scopes-IsSubset offered verdict granted
            (ap (λ (p : Result (List String) × State). p.0) e),
      )

  consent_found :
      (user client : ℕ) (s s' : State) (o : Option Consent)
      → optional (active_consent svc.world user client) s ≡ (ok o, s')
      → s' ≡ s
  unfolding active_consent ◌>>=◌
  consent_found user client s s' o h = ground arith

  store_keeps :
      (user client : ℕ) (granted : List String) (o : Option Consent) (s s' : State)
      → store_consent svc user client granted o s ≡ (ok tt, s')
      → KeepsFlow s s'
  unfolding store_consent insert_consent save_consent ◌>>=◌
  store_keeps user client granted none s s' h = (ground arith, ground arith, ground arith)
  store_keeps user client granted (some c) s s' h = (ground arith, ground arith, ground arith)

  save_keeps :
      (row : AuthorizationRequest) (e : Error) (s s' : State)
      → or_raise e (save_auth_request svc.world row) s ≡ (ok tt, s')
      → (s'.auth_codes ≡ s.auth_codes) × (s'.sessions ≡ s.sessions)
  unfolding save_auth_request ◌>>=◌
  save_keeps row e s s' h = (ground arith, ground arith)

  offered_ok :
      (found offered : List String) → non_empty_granted found ≡ ok offered → found ≡ offered
  offered_ok [] offered h = ground arith
  offered_ok (x ∷ found) offered h = ground arith

-- A consent that was accepted: the request's row and its user, the scopes that were granted, and the
-- code that was handed out for them.
pub record Consented (svc : Service) (input : AuthorizeConsentInput) (before after : State)
    (resp : AuthorizeConsentResponse) : Type 0 where
  pub req : AuthorizationRequest
  pub row : first (is_request svc.world input.request_id) before.auth_requests ≡ some req
  pub authenticated : req.authenticated ≡ true
  pub granted : List String
  pub asked : IsSubset granted req.scopes
  pub allowed : IsSubset granted input.scopes_granted
  pub middle : State
  pub untouched : (middle.auth_codes ≡ before.auth_codes) × (middle.sessions ≡ before.sessions)
  pub completed : Completed svc (consented req granted) middle after resp

-- When a consent is answered with a code, its request was stored, not expired and authenticated; the
-- scopes of the code are among those requested and among those that the user granted; a session of
-- the user with an identifier that no stored session had was added to the sessions, and is the only
-- one added; and the code's row, for the request's client, user, redirect URI and PKCE challenge and
-- for that session, was added to the codes, unused.
pub authorize_consent-Consented :
    (svc : Service) (input : AuthorizeConsentInput) (ip agent : String) (s s' : State)
    (resp : AuthorizeConsentResponse)
    → authorize_consent svc input ip agent s ≡ (ok resp, s')
    → Consented svc input s s' resp
unfolding authorize_consent
authorize_consent-Consented svc input ip agent s s' resp h =
    let (req, s1, e1, k1) = bind_ok _ _ s h in
    let (user, s2, e2, k2) = bind_ok _ _ s1 k1 in
    let (offered, s3, e3, k3) = bind_ok _ _ s2 k2 in
    let (granted, s4, e4, k4) = bind_ok _ _ s3 k3 in
    let (existing, s5, e5, k5) = bind_ok _ _ s4 k4 in
    let (u, s6, e6, k6) = bind_ok _ _ s5 k5 in
    let (v, s7, e7, k7) = bind_ok _ _ s6 k6 in
    let (row, same1) =
      find_request_ok svc input.request_id
        (invalid_request "invalid or expired authorization request") s s1 req e1 in
    let (same2, authenticated, by_user) = check_consent_ok svc req s1 s2 user e2 in
    let (offer, same3) =
      lift_ok (non_empty_granted (filter_scopes input.scopes_granted req.scopes)) s2 e3 in
    let offers = offered_ok svc (filter_scopes input.scopes_granted req.scopes) offered offer in
    let (given, wanted) = filter_scopes-IsSubset input.scopes_granted req.scopes in
    let (same4, narrowed) = consent_policy_ok svc req user offered granted ip agent s3 s4 e4 in
    let same5 = consent_found svc user req.client_id s4 s5 existing e5 in
    let kept6 = store_keeps svc user req.client_id granted existing s5 s6 e6 in
    let kept7 =
      save_keeps svc (consented req granted) (server_error "failed to update authorization request")
        s6 s7 e7 in
    let same : s5 ≡ s = same5 ∙ same4 ∙ same3 ∙ same2 ∙ same1 in
    record {
      req = req;
      row = row;
      authenticated = authenticated;
      granted = granted;
      asked = IsSubset-trans narrowed (rw (← offers) wanted);
      allowed = IsSubset-trans narrowed (rw (← offers) given);
      middle = s7;
      untouched = (
        kept7.0 ∙ kept6.0 ∙ ap (λ (t : State). t.auth_codes) same,
        kept7.1 ∙ kept6.2 ∙ ap (λ (t : State). t.sessions) same,
      );
      completed = complete_authorize-Completed svc (consented req granted) ip agent s7 s' resp k7;
    }

gone_request :
    (w : World) (id : ℕ) (rows : List AuthorizationRequest)
    → first (is_request w id) (select (λ r. not (r.id == id)) rows) ≡ none
gone_request w id rows = ground (
  arith,
  first-select (is_request w id) (λ (r : AuthorizationRequest). not (r.id == id)) rows,
  first_passes (is_request w id) (select (λ r. not (r.id == id)) rows),
)

first_party_row :
    (svc : Service) (id : ℕ) (ip agent : String) (s s' : State) (resp : AuthorizeConsentResponse)
    → complete_authorize_first_party svc id ip agent s ≡ (ok resp, s')
    → (req : AuthorizationRequest) × (first (is_request svc.world id) s.auth_requests ≡ some req)
unfolding complete_authorize_first_party
first_party_row svc id ip agent s s' resp h =
    let (req, s1, e1, k1) = bind_ok _ _ s h in
    let (row, same) =
      find_request_ok svc id (invalid_request "invalid or expired authorization request") s s1 req
        e1 in
    (req, row)

-- After a consent was answered with a code, neither another consent to the same request nor its
-- completion for a first-party client is answered with one, when the driver does not fail the
-- deletion of the request, which the code passes over.
pub request_spent :
    (svc : Service) (input : AuthorizeConsentInput) (scopes : List String) (ip agent : String)
    (s s' : State) (resp again : AuthorizeConsentResponse)
    → svc.breaks delete_auth_request ≡ false
    → authorize_consent svc input ip agent s ≡ (ok resp, s')
    → ((authorize_consent svc
          (record { request_id = input.request_id; scopes_granted = scopes })
          ip
          agent
          s').0
        ≢ ok again)
      × ((complete_authorize_first_party svc input.request_id ip agent s').0 ≢ ok again)
request_spent svc input scopes ip agent s s' resp again works h =
    let id = input.request_id in
    let one = authorize_consent-Consented svc input ip agent s s' resp h in
    let row = one.row in
    let same : one.req.id ≡ id =
      ground (arith, first_passes (is_request svc.world id) s.auth_requests) in
    let gone : first (is_request svc.world id) s'.auth_requests ≡ none =
      ap (first (is_request svc.world id)) one.completed.requests
      ∙ rw works (rw same (gone_request svc.world id one.middle.auth_requests)) in
    (
      λ k.
          let two =
            authorize_consent-Consented svc (record { request_id = id; scopes_granted = scopes }) ip
              agent s'
              (authorize_consent svc (record { request_id = id; scopes_granted = scopes }) ip agent
                s').1
              again
              (ends_ok
                (authorize_consent svc (record { request_id = id; scopes_granted = scopes }) ip
                  agent)
                s' again k) in
          let row' = two.row in ground arith,
      λ k.
          let (req, row') =
            first_party_row svc id ip agent s' (complete_authorize_first_party svc id ip agent s').1
              again (ends_ok (complete_authorize_first_party svc id ip agent) s' again k) in
          ground arith,
    )
