-- ===== src/Session.antt =====
-- session/service.go and session/repository.go: the identity provider's own login sessions.
pub mod Laws
use orion_auth_backend.Prelude.{
  ℕ, ◌+◌, String, Bool, true, false, not, ◌&&◌, ◌||◌, List, ◌∷◌, Option, none, some, ltb, ◌==◌,
  str_eq, if◌then◌else◌, first, select, update_where, count_where, any,
}
use orion_auth_backend.Errors.{internal_error, not_found, forbidden}
use orion_auth_backend.Exec.{Exec, pure, query, or_raise, require, write, fail_if, ◌>>=◌, ◌>>◌}
use orion_auth_backend.Model.{Session, State}
use orion_auth_backend.World.{
  World, generate, new_uuid, create_session, find_session, find_session_by_cookie, find_sessions,
  revoke_session, revoke_sessions,
}

-- The configuration that the service reads; `resolver` is the optional TTLResolver.
pub record SessionConfig : Type 0 where
  pub session_ttl : ℕ
  pub session_extended_ttl : ℕ
  pub resolver : Option (Bool → ℕ)

pub record CreateInput : Type 0 where
  pub user_id : ℕ
  pub ip_address : String
  pub user_agent : String
  pub extended : Bool

unfoldable pub resolve_ttl : SessionConfig → Bool → ℕ
resolve_ttl cfg extended = elim cfg.resolver [
  | none ↦ if extended then cfg.session_extended_ttl else cfg.session_ttl
  | some ttl ↦ ttl extended
]

-- `if s == "" { p = nil }`
abbrev pub non_blank : String → Option String
non_blank s = if str_eq s "" then none else some s

module _ (w : World) where
  -- Repository.Create: a second row with the primary key is refused.
  insert_session : Session → Exec State Unit
  insert_session row s =
      write (w.breaks create_session || any (λ r. r.id == row.id) s.sessions)
        (λ s. record s { db = record s.db { sessions = row ∷ s.sessions } }) s

  -- Repository.FindByID
  find_by_id : ℕ → Exec State (Option Session)
  find_by_id id = query (w.breaks find_session) (λ s. first (λ r. r.id == id) s.sessions)

  -- `revoked = FALSE AND expires_at > NOW()`
  abbrev pub live : Session → Bool
  live r = not r.revoked && ltb w.wall r.expires_at

  -- Repository.FindActiveByCookieHash
  find_active_by_cookie_hash : String → Exec State (Option Session)
  find_active_by_cookie_hash hash =
      query (w.breaks find_session_by_cookie)
        (λ s. first (λ r. str_eq r.cookie_token_hash hash && live r) s.sessions)

  -- Repository.FindActiveByUser, less the order of the rows.
  find_active_by_user : ℕ → Exec State (List Session)
  find_active_by_user user =
      query (w.breaks find_sessions) (λ s. select (λ r. r.user_id == user && live r) s.sessions)

  abbrev pub revoked_now : Session → Session
  revoked_now r = record r { revoked = true; revoked_at = some w.wall }

  -- Repository.Revoke
  mark_revoked : ℕ → Exec State Unit
  mark_revoked id = write (w.breaks revoke_session) (λ s. record s {
    db = record s.db { sessions = update_where (λ r. r.id == id) revoked_now s.sessions };
  })

  -- The rows of RevokeAllForUser; a nil exception names no session.
  abbrev pub is_target : ℕ → Option ℕ → Session → Bool
  is_target user none r = r.user_id == user && not r.revoked
  is_target user (some keep) r = r.user_id == user && not r.revoked && not (r.id == keep)

  -- Repository.RevokeAllForUser, with the number of rows
  revoke_all_for_user : ℕ → Option ℕ → Exec State ℕ
  revoke_all_for_user user keep = do
    n ← query (w.breaks revoke_sessions) (λ s. count_where (is_target user keep) s.sessions)
    write (w.breaks revoke_sessions) (λ s. record s {
      db = record s.db { sessions = update_where (is_target user keep) revoked_now s.sessions };
    })
    pure n

  module _ (cfg : SessionConfig) where
    abbrev pub new_session : CreateInput → ℕ → String → Session
    new_session input id cookie_hash = record {
      id = id;
      user_id = input.user_id;
      ip_address = non_blank input.ip_address;
      user_agent = non_blank input.user_agent;
      last_active_at = w.now;
      authenticated_at = w.now;
      revoked = false;
      revoked_at = none;
      expires_at = w.now + resolve_ttl cfg input.extended;
      created_at = w.wall;
      extended = input.extended;
      cookie_token_hash = cookie_hash;
      cookie_token = "";
    }

    unfoldable pub create : CreateInput → Exec State Session
    unfolding insert_session generate new_uuid ◌>>=◌
    create input = do
      id ← new_uuid w (internal_error "failed to generate session ID")
      raw_cookie ← generate w (internal_error "failed to generate session cookie token")
      let session = new_session input id (w.hash_token raw_cookie)
      or_raise (internal_error "failed to create session") (insert_session session)
      pure (record session { cookie_token = raw_cookie })

  unfoldable pub find_by_cookie_token : String → Exec State (Option Session)
  unfolding find_active_by_cookie_hash ◌>>=◌
  find_by_cookie_token raw =
      if str_eq raw ""
      then pure none
      else or_raise (internal_error "failed to look up session")
          (find_active_by_cookie_hash (w.hash_token raw))

  unfoldable pub is_active : ℕ → Exec State Bool
  unfolding find_by_id ◌>>=◌
  is_active id = do
    found ← find_by_id id
    pure (elim found [ none ↦ false | some sess ↦ not sess.revoked && ltb w.now sess.expires_at ])

  unfoldable pub list_active : ℕ → Exec State (List Session)
  unfolding find_active_by_user ◌>>=◌
  list_active user = or_raise (internal_error "failed to list sessions") (find_active_by_user user)

  unfoldable pub revoke : ℕ → ℕ → Exec State Unit
  unfolding find_by_id mark_revoked ◌>>=◌
  revoke session_id user_id = do
    found ← or_raise (internal_error "failed to find session") (find_by_id session_id)
    session ← require (not_found "session not found") found
    fail_if (not (session.user_id == user_id)) (forbidden "session does not belong to user")
    if session.revoked
        then pure tt
        else or_raise (internal_error "failed to revoke session") (mark_revoked session_id)

  unfoldable pub revoke_all : ℕ → Option ℕ → Exec State ℕ
  unfolding revoke_all_for_user ◌>>=◌
  revoke_all user current =
      or_raise (internal_error "failed to revoke sessions") (revoke_all_for_user user current)
