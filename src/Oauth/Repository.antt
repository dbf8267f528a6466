-- ===== src/Oauth/Repository.antt =====
-- oauth/repository.go: the queries and updates, as their SQL selects rows. `breaks` of the world
-- says which of them the driver fails.
pub mod Laws
pub mod Flow
use orion_auth_backend.Prelude.{
  ℕ, String, Bool, true, false, not, ◌&&◌, ◌||◌, List, ◌∷◌, Option, none, some, ltb, ◌==◌, str_eq,
  if◌then◌else◌, first, update_where, save_row, any, select,
}
use orion_auth_backend.Errors.{Error, invalid_request, invalid_client}
use orion_auth_backend.Exec.{
  Exec, Result, ok, err, query, write, require, or_raise, found, ◌>>=◌, ◌>>◌,
}
use orion_auth_backend.Model.{
  OauthClient, AccessToken, RefreshToken, AuthorizationCode, AuthorizationRequest, Consent,
  DeviceCode, RevokedJti, State, User,
}
use orion_auth_backend.World.{
  World, Op, find_client, find_user, find_auth_request, create_auth_request, update_auth_request,
  delete_auth_request, create_auth_code, find_auth_code, mark_auth_code_used, create_access_token,
  find_access_token, revoke_access_token, revoke_access_tokens_by_refresh_token,
  revoke_access_tokens_by_session, create_refresh_token, find_refresh_token, rotate_refresh_token,
  revoke_refresh_token_family, revoke_refresh_tokens_by_session, find_active_consent,
  create_consent, update_consent, create_device_code, find_device_code,
  find_device_code_by_user_code, update_device_code, is_jti_revoked, revoke_jti,
}

abbrev pub succeeded {ℓ} : {A : Type ℓ} → Result A → Bool
succeeded (ok _) = true
succeeded (err _) = false

-- Tests on a nullable column: NULL equals nothing.
abbrev pub is_session : ℕ → Option ℕ → Bool
is_session id none = false
is_session id (some j) = j == id

abbrev pub is_text : String → Option String → Bool
is_text id none = false
is_text id (some j) = str_eq j id

abbrev pub revoke_at : AccessToken → AccessToken
revoke_at t = record t { revoked = true }

abbrev pub revoke_rt : RefreshToken → RefreshToken
revoke_rt t = record t { revoked = true }

module _ (w : World) where
  -- findClient; its argument is the text of a UUID wherever it is called with a stored id
  unfoldable pub client_by_id : ℕ → Exec State OauthClient
  unfolding ◌>>=◌
  client_by_id id =
      found (invalid_client "unknown client")
        (query (w.breaks find_client) (λ s. first (λ c. c.id == id && c.active) s.clients))

  -- user.Service.GetByID, its errors without their texts
  unfoldable pub user_by_id : ℕ → Exec State (Option User)
  unfolding ◌>>=◌
  user_by_id id = query (w.breaks find_user) (λ s. first (λ u. u.id == id) s.users)

  unfoldable pub access_token_by_id : String → Exec State (Option AccessToken)
  unfolding ◌>>=◌
  access_token_by_id id =
      query (w.breaks find_access_token) (λ s. first (λ t. str_eq t.id id) s.access_tokens)

  unfoldable pub insert_access_token : AccessToken → Exec State Unit
  unfolding ◌>>=◌
  insert_access_token row s =
      write (w.breaks create_access_token || any (λ t. str_eq t.id row.id) s.access_tokens)
        (λ s. record s { db = record s.db { access_tokens = row ∷ s.access_tokens } }) s

  abbrev update_access_tokens : Op → (AccessToken → Bool) → Exec State Unit
  update_access_tokens op test = write (w.breaks op) (λ s. record s {
    db = record s.db { access_tokens = update_where test revoke_at s.access_tokens };
  })

  unfoldable pub revoke_access_token_by_id : String → Exec State Unit
  unfolding ◌>>=◌
  revoke_access_token_by_id id = update_access_tokens revoke_access_token (λ t. str_eq t.id id)

  unfoldable pub revoke_by_refresh_token : String → Exec State Unit
  unfolding ◌>>=◌
  revoke_by_refresh_token id =
      update_access_tokens revoke_access_tokens_by_refresh_token
        (λ t. is_text id t.refresh_token_id && not t.revoked)

  unfoldable pub revoke_by_session : ℕ → Exec State Unit
  unfolding ◌>>=◌
  revoke_by_session id =
      update_access_tokens revoke_access_tokens_by_session
        (λ t. is_session id t.session_id && not t.revoked)

  unfoldable pub refresh_token_by_id : String → Exec State (Option RefreshToken)
  unfolding ◌>>=◌
  refresh_token_by_id id =
      query (w.breaks find_refresh_token) (λ s. first (λ t. str_eq t.id id) s.refresh_tokens)

  unfoldable pub insert_refresh_token : RefreshToken → Exec State Unit
  unfolding ◌>>=◌
  insert_refresh_token row s =
      write (w.breaks create_refresh_token || any (λ t. str_eq t.id row.id) s.refresh_tokens)
        (λ s. record s { db = record s.db { refresh_tokens = row ∷ s.refresh_tokens } }) s

  abbrev update_refresh_tokens :
      Op → (RefreshToken → Bool) → (RefreshToken → RefreshToken) → Exec State Unit
  update_refresh_tokens op test f =
      write (w.breaks op) (λ s. record s {
        db = record s.db { refresh_tokens = update_where test f s.refresh_tokens };
      })

  unfoldable pub rotate : String → Exec State Unit
  unfolding ◌>>=◌
  rotate id =
      update_refresh_tokens rotate_refresh_token (λ t. str_eq t.id id)
        (λ t. record t { rotated_at = some w.wall })

  unfoldable pub revoke_family : ℕ → Exec State Unit
  unfolding ◌>>=◌
  revoke_family family =
      update_refresh_tokens revoke_refresh_token_family
        (λ t. t.family_id == family && not t.revoked) revoke_rt

  unfoldable pub revoke_refresh_by_session : ℕ → Exec State Unit
  unfolding ◌>>=◌
  revoke_refresh_by_session id =
      update_refresh_tokens revoke_refresh_tokens_by_session
        (λ t. t.session_id == id && not t.revoked) revoke_rt

  unfoldable pub auth_code_by_hash : String → Exec State (Option AuthorizationCode)
  unfolding ◌>>=◌
  auth_code_by_hash hash =
      query (w.breaks find_auth_code) (λ s. first (λ c. str_eq c.code_hash hash) s.auth_codes)

  unfoldable pub mark_used : String → Exec State Unit
  unfolding ◌>>=◌
  mark_used hash = write (w.breaks mark_auth_code_used) (λ s. record s {
    db = record s.db {
      auth_codes =
          update_where (λ c. str_eq c.code_hash hash) (λ c. record c { used = true }) s.auth_codes;
    };
  })

  unfoldable pub device_code_by_hash : String → Exec State (Option DeviceCode)
  unfolding ◌>>=◌
  device_code_by_hash hash =
      query (w.breaks find_device_code)
        (λ s. first (λ d. str_eq d.device_code_hash hash) s.device_codes)

  unfoldable pub device_code_by_user_code : String → Exec State (Option DeviceCode)
  unfolding ◌>>=◌
  device_code_by_user_code code =
      query (w.breaks find_device_code_by_user_code)
        (λ s. first (λ d. str_eq d.user_code code) s.device_codes)

  unfoldable pub insert_device_code : DeviceCode → Exec State Unit
  unfolding ◌>>=◌
  insert_device_code row s =
      write
        (w.breaks create_device_code
          || any
              (λ d.
                str_eq d.device_code_hash row.device_code_hash || str_eq d.user_code row.user_code)
              s.device_codes)
        (λ s. record s { db = record s.db { device_codes = row ∷ s.device_codes } }) s

  -- `Save`; `op` tells the three calls of UpdateDeviceCode apart
  unfoldable pub save_device_code : Op → DeviceCode → Exec State Unit
  unfolding ◌>>=◌
  save_device_code op row = write (w.breaks op) (λ s. record s {
    db = record s.db {
      device_codes =
          save_row (λ d. str_eq d.device_code_hash row.device_code_hash) row s.device_codes;
    };
  })

  -- IsJTIRevoked
  unfoldable pub jti_is_revoked : String → Exec State Bool
  unfolding ◌>>=◌
  jti_is_revoked jti =
      if str_eq jti ""
      then query false (λ s. false)
      else query (w.breaks is_jti_revoked)
          (λ s. any (λ r. str_eq r.jti jti && ltb w.wall r.expires_at) s.revoked_jtis)

  abbrev add_jti : RevokedJti → List RevokedJti → List RevokedJti
  add_jti row rows = if any (λ r. str_eq r.jti row.jti) rows then rows else row ∷ rows

  -- RevokeJTI, `ON CONFLICT DO NOTHING`
  unfoldable pub deny_jti : String → ℕ → Exec State Unit
  unfolding ◌>>=◌
  deny_jti jti expires_at =
      if str_eq jti ""
      then write false (λ s. s)
      else write (w.breaks revoke_jti) (λ s. record s {
        db = record s.db {
          revoked_jtis = add_jti (record { jti = jti; expires_at = expires_at }) s.revoked_jtis;
        };
      })

  -- PurgeExpiredRevokedJTIs
  unfoldable pub purge_revoked_jtis : State → State
  purge_revoked_jtis s = record s {
    db = record s.db { revoked_jtis = select (λ r. not (ltb r.expires_at w.wall)) s.revoked_jtis };
  }

  -- Transaction; what was drawn from the random generator stays drawn
  unfoldable pub transaction : {A : Type 0} → Exec State A → Exec State A
  transaction body s =
      let (r, s') = body s in (r, record s' { db = w.after_transaction (succeeded r) s.db s'.db })
