-- ===== src/Oauth/Login/Ends.antt =====
-- The operations that start and end an authorization request keep the gate.
use orion_auth_backend.Prelude.{
  ℕ, String, ◌≡◌, Bool, true, false, ◌&&◌, List, Option, none, some, inl, inr, arith, save_row-All,
  first-All, ◌==◌, ltb, Bool-cases,
}
use orion_auth_backend.Errors.{Error}
use orion_auth_backend.Exec.{ok, or_raise, found, fail_if, ◌>>=◌}
use orion_auth_backend.Model.{AuthorizationRequest, State, Consent}
use orion_auth_backend.World.{update_auth_request, new_uuid}
use orion_auth_backend.Oauth.Service.{Service}
use orion_auth_backend.Oauth.Repository.Flow.{
  auth_request_by_id, save_auth_request, insert_consent, save_consent,
}
use orion_auth_backend.Oauth.Authorize.{
  AuthorizeConsentInput, check_consent, consent_policy, store_consent, authorize_consent,
  complete_authorize_first_party,
}
use orion_auth_backend.Oauth.Login.Verified.{
  UrlLibrary, verify_row, is_other, complete_after_verification,
}
use orion_auth_backend.Oauth.Login.Gate.{
  IsGated, Gated, IsGateKeeping, quiet-IsGateKeeping, bind-IsGateKeeping, bind_value-IsGateKeeping,
  lift-IsGateKeeping, fail_if-IsGateKeeping, complete_authorize-IsGateKeeping,
}
use orion_auth_backend.Oauth.Login.Flow.{save_step-IsGateKeeping, consent_quiet}

module _ (svc : Service) where
  request_quiet :
      (e : Error) (id : ℕ) (s : State)
      → (found e (auth_request_by_id svc.world id) s).1.auth_requests ≡ s.auth_requests
  unfolding auth_request_by_id ◌>>=◌
  request_quiet e id s = ground arith

  request_finds :
      (e : Error) (id : ℕ) (s : State) (req : AuthorizationRequest)
      → Gated s
      → found e (auth_request_by_id svc.world id) s
        ≡ (ok req, (found e (auth_request_by_id svc.world id) s).1)
      → IsGated req
  unfolding auth_request_by_id ◌>>=◌
  request_finds e id s req h eq =
      first-All IsGated (λ r. r.id == id && ltb svc.wall r.expires_at) s.auth_requests req h.rows
        (ground arith)

  verify_row-IsGated :
      (url : UrlLibrary) (req : AuthorizationRequest) (user : ℕ)
      → is_other url svc user req.user_id ≡ false
      → IsGated (verify_row url svc req)
  verify_row-IsGated url req user e = ground arith

  guard_passes :
      (test : Bool) (e : Error) (s : State) (u : Unit {0})
      → fail_if test e s ≡ (ok u, (fail_if test e s).1)
      → test ≡ false
  unfolding ◌>>=◌
  guard_passes test e s u h = ground arith

  pub complete_after_verification-IsGateKeeping :
      (url : UrlLibrary) (request_id user : ℕ) (ip agent : String)
      → IsGateKeeping (complete_after_verification url svc request_id user ip agent)
  unfolding complete_after_verification
  complete_after_verification-IsGateKeeping url request_id user ip agent =
      bind-IsGateKeeping (quiet-IsGateKeeping _ (request_quiet _ _)) λ req.
        bind-IsGateKeeping (fail_if-IsGateKeeping _ _) λ _.
          bind_value-IsGateKeeping (λ _. is_other url svc user req.user_id ≡ false)
            (fail_if-IsGateKeeping _ _) (λ s u h e. guard_passes _ _ s u e)
            λ _ same.
              bind-IsGateKeeping
                (save_step-IsGateKeeping svc _ (verify_row-IsGated url req user same))
                λ _.
                  bind-IsGateKeeping (complete_authorize-IsGateKeeping svc _ ip agent)
                    λ resp. lift-IsGateKeeping _

  pub complete_authorize_first_party-IsGateKeeping :
      (request_id : ℕ) (ip agent : String)
      → IsGateKeeping (complete_authorize_first_party svc request_id ip agent)
  unfolding complete_authorize_first_party
  complete_authorize_first_party-IsGateKeeping request_id ip agent =
      bind-IsGateKeeping (quiet-IsGateKeeping _ (request_quiet _ _)) λ req.
        bind-IsGateKeeping (fail_if-IsGateKeeping _ _)
          λ _. complete_authorize-IsGateKeeping svc req ip agent

  check_consent_quiet :
      (req : AuthorizationRequest) (s : State)
      → (check_consent svc req s).1.auth_requests ≡ s.auth_requests
  unfolding check_consent
  check_consent_quiet req s = ground arith

  check_consent_passes :
      (req : AuthorizationRequest) (s : State) (user : ℕ)
      → check_consent svc req s ≡ (ok user, (check_consent svc req s).1)
      → req.authenticated ≡ true
  unfolding check_consent
  check_consent_passes req s user h = ground arith

  policy_quiet :
      (req : AuthorizationRequest) (user : ℕ) (scopes : List String) (ip agent : String) (s : State)
      → (consent_policy svc req user scopes ip agent s).1.auth_requests ≡ s.auth_requests
  unfolding consent_policy
  policy_quiet req user scopes ip agent s = ground arith

  store_quiet :
      (user client : ℕ) (scopes : List String) (o : Option Consent) (s : State)
      → (store_consent svc user client scopes o s).1.auth_requests ≡ s.auth_requests
  unfolding store_consent insert_consent save_consent new_uuid ◌>>=◌
  store_quiet user client scopes none s = ground arith
  store_quiet user client scopes (some c) s = ground arith

  given-IsGated :
      (req : AuthorizationRequest) (scopes : List String)
      → IsGated req
      → req.authenticated ≡ true
      → IsGated (record req { consent_given = true; scopes = scopes })
  given-IsGated req scopes g a = ground arith

  save-IsGateKeeping :
      (e : Error) (row : AuthorizationRequest)
      → IsGated row
      → IsGateKeeping (or_raise e (save_auth_request svc.world row))
  unfolding save_auth_request ◌>>=◌
  save-IsGateKeeping e row g = record {
    at = λ s h. record {
      rows = elim (Bool-cases (svc.breaks update_auth_request)) [
        | inl fails ↦ rw fails h.rows
        | inr done ↦
            rw done (save_row-All IsGated (λ r. r.id == row.id) row s.auth_requests g h.rows)
      ];
    };
  }

  pub authorize_consent-IsGateKeeping :
      (input : AuthorizeConsentInput) (ip agent : String)
      → IsGateKeeping (authorize_consent svc input ip agent)
  unfolding authorize_consent
  authorize_consent-IsGateKeeping input ip agent =
      bind_value-IsGateKeeping IsGated (quiet-IsGateKeeping _ (request_quiet _ _))
        (request_finds _ _)
        λ req g.
          bind_value-IsGateKeeping (λ _. req.authenticated ≡ true)
            (quiet-IsGateKeeping _ (check_consent_quiet req))
            (λ s user h e. check_consent_passes req s user e)
            λ user a. bind-IsGateKeeping (lift-IsGateKeeping _) λ offered.
              bind-IsGateKeeping (quiet-IsGateKeeping _ (policy_quiet req user offered ip agent))
                λ granted.
                  bind-IsGateKeeping (quiet-IsGateKeeping _ (consent_quiet svc user req.client_id))
                    λ existing.
                      bind-IsGateKeeping
                        (quiet-IsGateKeeping _ (store_quiet user req.client_id granted existing))
                        λ _.
                          bind-IsGateKeeping
                            (save-IsGateKeeping _ _ (given-IsGated req granted g a))
                            λ _. complete_authorize-IsGateKeeping svc _ ip agent
