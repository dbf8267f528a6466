-- ===== src/Oauth/Repository/Flow.antt =====
-- oauth/repository.go: authorization requests, authorization codes and consents.
use orion_auth_backend.Prelude.{
  ℕ, String, not, ◌&&◌, ◌||◌, ◌∷◌, Option, ltb, ◌==◌, str_eq, first, select, save_row, any, is_some,
  if◌then◌else◌,
}
use orion_auth_backend.Errors.{server_error, database}
use orion_auth_backend.Exec.{Exec, ok, err, query, write, ◌>>=◌}
use orion_auth_backend.Model.{
  AuthorizationRequest, AuthorizationCode, Consent, PushedRequest, State,
}
use orion_auth_backend.World.{
  World, new_uuid, find_auth_request, create_auth_request, create_par, find_par, delete_par,
  update_auth_request, delete_auth_request, create_auth_code, find_active_consent, create_consent,
  update_consent,
}

module _ (w : World) where
  -- FindAuthRequest: an expired row is not found
  unfoldable pub auth_request_by_id : ℕ → Exec State (Option AuthorizationRequest)
  unfolding ◌>>=◌
  auth_request_by_id id =
      query (w.breaks find_auth_request)
        (λ s. first (λ r. r.id == id && ltb w.wall r.expires_at) s.auth_requests)

  abbrev add_auth_request : AuthorizationRequest → Exec State AuthorizationRequest
  add_auth_request row s =
      if w.breaks create_auth_request || any (λ r. r.id == row.id) s.auth_requests
      then (err database, s)
      else (ok row, record s { db = record s.db { auth_requests = row ∷ s.auth_requests } })

  -- CreateAuthRequest; the row gets its identifier in BeforeCreate
  unfoldable pub insert_auth_request : AuthorizationRequest → Exec State AuthorizationRequest
  unfolding ◌>>=◌ new_uuid
  insert_auth_request row = do
    id ← new_uuid w (server_error "failed to create authorization request")
    add_auth_request (record row { id = id })

  -- UpdateAuthRequest, a `Save`
  unfoldable pub save_auth_request : AuthorizationRequest → Exec State Unit
  unfolding ◌>>=◌
  save_auth_request row = write (w.breaks update_auth_request) (λ s. record s {
    db = record s.db { auth_requests = save_row (λ r. r.id == row.id) row s.auth_requests };
  })

  -- DeleteAuthRequest
  unfoldable pub remove_auth_request : ℕ → Exec State Unit
  unfolding ◌>>=◌
  remove_auth_request id = write (w.breaks delete_auth_request) (λ s. record s {
    db = record s.db { auth_requests = select (λ r. not (r.id == id)) s.auth_requests };
  })

  -- CreateAuthCode
  unfoldable pub insert_auth_code : AuthorizationCode → Exec State Unit
  unfolding ◌>>=◌
  insert_auth_code row s =
      write (w.breaks create_auth_code || any (λ c. str_eq c.code_hash row.code_hash) s.auth_codes)
        (λ s. record s { db = record s.db { auth_codes = row ∷ s.auth_codes } }) s

  -- FindActiveConsent
  unfoldable pub active_consent : (user client : ℕ) → Exec State (Option Consent)
  unfolding ◌>>=◌
  active_consent user client = query (w.breaks find_active_consent) (λ s.
      first (λ c. c.user_id == user && c.client_id == client && not (is_some c.revoked_at))
        s.consents)

  abbrev add_consent : Consent → Exec State Unit
  add_consent row s =
      write (w.breaks create_consent || any (λ c. c.id == row.id) s.consents)
        (λ s. record s { db = record s.db { consents = row ∷ s.consents } }) s

  -- CreateConsent; the row gets its identifier in BeforeCreate
  unfoldable pub insert_consent : Consent → Exec State Unit
  unfolding ◌>>=◌ new_uuid
  insert_consent row = do
    id ← new_uuid w (server_error "failed to store consent")
    add_consent (record row { id = id })

  -- UpdateConsent
  unfoldable pub save_consent : Consent → Exec State Unit
  unfolding ◌>>=◌
  save_consent row = write (w.breaks update_consent) (λ s. record s {
    db = record s.db { consents = save_row (λ c. c.id == row.id) row s.consents };
  })

  -- CreatePAR
  unfoldable pub insert_par : PushedRequest → Exec State Unit
  unfolding ◌>>=◌
  insert_par row s =
      write
        (w.breaks create_par || any (λ r. str_eq r.request_uri row.request_uri) s.pushed_requests)
        (λ s. record s { db = record s.db { pushed_requests = row ∷ s.pushed_requests } }) s

  -- FindPAR
  unfoldable pub par_by_uri : String → Exec State (Option PushedRequest)
  unfolding ◌>>=◌
  par_by_uri uri =
      query (w.breaks find_par)
        (λ s. first (λ r. str_eq r.request_uri uri && ltb w.wall r.expires_at) s.pushed_requests)

  -- DeletePAR
  unfoldable pub remove_par : String → Exec State Unit
  unfolding ◌>>=◌
  remove_par uri = write (w.breaks delete_par) (λ s. record s {
    db = record s.db {
      pushed_requests = select (λ r. not (str_eq r.request_uri uri)) s.pushed_requests;
    };
  })
