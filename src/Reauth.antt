-- ===== src/Reauth.antt =====
-- reauth/service.go and reauth/repository.go: single-use tokens of a step-up reauthentication.
pub mod Laws
use Prim.Native.String
use orion_auth_backend.Prelude.{
  ℕ, ◌+◌, String, Bool, true, false, not, ◌&&◌, ◌||◌, List, [], ◌∷◌, Option, none, some, ltb, ◌==◌,
  str_eq, first, select, update_where, count_where, any, if◌then◌else◌,
}
use orion_auth_backend.Errors.{Error, internal_error, bad_request, unauthorized}
use orion_auth_backend.Exec.{
  Exec, Result, ok, err, pure, raise, lift, query, write, or_raise, fail_if, branch, ◌>>=◌, ◌>>◌,
}
use orion_auth_backend.Model.{ReauthToken, State, reauth_token_is_valid}
use orion_auth_backend.World.{
  World, generate, create_reauth, find_reauth, mark_reauth_used, delete_reauth,
  delete_expired_reauth,
}
use orion_auth_backend.Mfa.{Totp, has_mfa, validate_code}

-- `passkey_response` says whether its bytes are there; `nil_challenge` whether the ID is uuid.Nil.
pub record IssueRequest : Type 0 where
  pub method : String
  pub password : String
  pub code : String
  pub nil_challenge : Bool
  pub passkey_challenge_id : ℕ
  pub passkey_response : String

pub record IssueResponse : Type 0 where
  pub token : String
  pub expires_at : ℕ
  pub method : String

-- The verifiers that the service is given: the password check of the user service, and the passkey
-- service when it is wired in. `mfa` is this program's own, when it is wired in.
pub record Verifiers : Type 0 where
  pub verify_password : ℕ → String → Result Bool
  pub mfa : Option Totp
  pub validate_assertion : Option (ℕ → ℕ → String → Result Bool)
  pub token_ttl : ℕ

module _ (w : World) where
  -- Repository.Create
  unfoldable pub insert_reauth : ReauthToken → Exec State Unit
  unfolding ◌>>=◌
  insert_reauth row s =
      write (w.breaks create_reauth || any (λ t. str_eq t.id row.id) s.reauth_tokens)
        (λ s. record s { db = record s.db { reauth_tokens = row ∷ s.reauth_tokens } }) s

  -- Repository.FindByHash
  unfoldable pub reauth_by_hash : String → Exec State (Option ReauthToken)
  unfolding ◌>>=◌
  reauth_by_hash hash =
      query (w.breaks find_reauth) (λ s. first (λ t. str_eq t.id hash) s.reauth_tokens)

  abbrev pub used_now : String → ReauthToken → ReauthToken
  used_now by t = record t { used = true; used_at = some w.wall; consumed_by = some by }

  -- Repository.MarkUsed
  unfoldable pub mark_reauth : (hash consumed_by : String) → Exec State Unit
  unfolding ◌>>=◌
  mark_reauth hash consumed_by = write (w.breaks mark_reauth_used) (λ s. record s {
    db = record s.db {
      reauth_tokens =
          update_where (λ t. str_eq t.id hash && not t.used) (used_now consumed_by) s.reauth_tokens;
    };
  })

  -- CleanupExpired, DeleteExpired of the repository, with the number of rows
  unfoldable pub cleanup_expired : Exec State ℕ
  unfolding ◌>>=◌
  cleanup_expired = do
    n ←
        query (w.breaks delete_expired_reauth)
          (λ s. count_where (λ t. ltb t.expires_at w.wall) s.reauth_tokens)
    write (w.breaks delete_expired_reauth) (λ s. record s {
      db = record s.db {
        reauth_tokens = select (λ t. not (ltb t.expires_at w.wall)) s.reauth_tokens;
      };
    })
    pure n

  -- RevokeForSession, DeleteForSession of the repository
  unfoldable pub revoke_for_session : ℕ → Exec State Unit
  unfolding ◌>>=◌
  revoke_for_session session = write (w.breaks delete_reauth) (λ s. record s {
    db = record s.db {
      reauth_tokens = select (λ t. not (t.session_id == session)) s.reauth_tokens;
    };
  })

  unfoldable pub consume : (hash consumed_by : String) → Exec State Unit
  unfolding ◌>>=◌ mark_reauth
  consume hash consumed_by =
      or_raise (internal_error "failed to consume reauth token") (mark_reauth hash consumed_by)

  abbrev pub accepts : ℕ → ℕ → ReauthToken → Bool
  accepts user session t =
      reauth_token_is_valid w.wall t && t.user_id == user && t.session_id == session

  abbrev checked : ℕ → ℕ → Option ReauthToken → Option ReauthToken
  checked user session none = none
  checked user session (some t) = if accepts user session t then some t else none

  unfoldable pub verify : (raw_token : String) → ℕ → ℕ → Exec State (Option ReauthToken)
  unfolding ◌>>=◌ reauth_by_hash reauth_token_is_valid
  verify raw_token user session =
      branch (str_eq raw_token "") (pure none)
        (do t ← reauth_by_hash (w.hash_token raw_token); pure (checked user session t))

  module _ (v : Verifiers) where
    abbrev known : Error → Result Bool → Result Bool
    known e (ok b) = ok b
    known e (err _) = err e

    -- the password case
    unfoldable pub verify_by_password : ℕ → String → Exec State Unit
    unfolding ◌>>=◌
    verify_by_password user password = do
      fail_if (str_eq password "") (bad_request "password is required")
      valid ←
          lift
            (known (internal_error "failed to verify password") (v.verify_password user password))
      fail_if (not valid) (unauthorized "invalid password")

    -- the TOTP and the backup code case
    unfoldable pub verify_by_mfa : Option Totp → ℕ → String → Exec State Unit
    unfolding ◌>>=◌ has_mfa validate_code
    verify_by_mfa none user code = raise (internal_error "mfa validator not configured")
    verify_by_mfa (some totp) user code = do
      fail_if (str_eq code "") (bad_request "code is required")
      enrolled ← or_raise (internal_error "failed to check mfa") (has_mfa w totp user)
      fail_if (not enrolled) (bad_request "mfa is not enrolled")
      valid ←
          or_raise (internal_error "failed to validate mfa code") (validate_code w totp user code)
      fail_if (not valid) (unauthorized "invalid mfa code")

    -- the passkey case
    unfoldable pub verify_by_passkey :
        Option (ℕ → ℕ → String → Result Bool) → ℕ → IssueRequest → Exec State Unit
    unfolding ◌>>=◌
    verify_by_passkey none user req = raise (internal_error "passkey validator not configured")
    verify_by_passkey (some validate) user req = do
      fail_if (req.nil_challenge || str_eq req.passkey_response "")
          (bad_request "passkey_challenge_id and passkey_response are required")
      valid ← lift (
          known (internal_error "failed to validate passkey assertion")
            (validate user req.passkey_challenge_id req.passkey_response))
      fail_if (not valid) (unauthorized "invalid passkey assertion")

    unfoldable pub verify_method : ℕ → IssueRequest → Exec State Unit
    unfolding ◌>>=◌ verify_by_password verify_by_mfa verify_by_passkey
    verify_method user req =
        branch (str_eq req.method "password") (verify_by_password user req.password) (
          branch (str_eq req.method "totp" || str_eq req.method "backup_code")
            (verify_by_mfa v.mfa user req.code)
            (branch (str_eq req.method "passkey") (verify_by_passkey v.validate_assertion user req)
              (raise (bad_request (String.◌++◌ "unsupported reauth method: " req.method)))))

    abbrev pub new_reauth : ℕ → ℕ → String → String → ReauthToken
    new_reauth user session method hash = record {
      id = hash;
      user_id = user;
      session_id = session;
      method = method;
      expires_at = w.wall + v.token_ttl;
      used = false;
      used_at = none;
      consumed_by = none;
    }

    unfoldable pub issue : ℕ → ℕ → IssueRequest → Exec State IssueResponse
    issue user session req = do
      verify_method user req
      raw ← generate w (internal_error "failed to generate reauth token")
      or_raise (internal_error "failed to issue reauth token")
          (insert_reauth (new_reauth user session req.method (w.hash_token raw)))
      pure (record { token = raw; expires_at = w.wall + v.token_ttl; method = req.method })
