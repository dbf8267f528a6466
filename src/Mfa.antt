-- ===== src/Mfa.antt =====
-- mfa/service.go and mfa/repository.go: time-based one-time passwords and backup codes.
pub mod Replay
pub mod Enrolment
pub mod Validator
use orion_auth_backend.Prelude.{
  ℕ, ◌+◌, ◌*◌, ◌/◌, zero, suc, String, Bool, true, false, not, ◌&&◌, ◌||◌, List, [], ◌∷◌, Option,
  none, some, ltb, leb, ◌==◌, str_eq, is_some, map, first, select, save_row, any, if◌then◌else◌,
}
use orion_auth_backend.Errors.{internal_error, conflict, not_found, bad_request, unauthorized}
use orion_auth_backend.Exec.{
  Exec, Result, ok, err, pure, raise, query, write, or_raise, found, optional, branch, when,
  fail_if, ignore, ◌>>=◌, ◌>>◌,
}
use orion_auth_backend.Model.{MfaMethod, State}
use orion_auth_backend.World.{
  World, second, generate, new_uuid, find_mfa_by_type, find_mfa, update_mfa, create_mfa, delete_mfa,
}

-- The library pquerna/otp: whether a code is valid for a secret at a time, and a new key for an
-- account, with its URL, at a draw.
pub record Totp : Type 0 where
  pub validate : (wall : ℕ) → (code secret : String) → Bool
  pub generate_key : (draw : ℕ) → (account : String) → Option (String × String)

pub record EnrollResponse : Type 0 where
  pub secret : String
  pub url : String
  pub mfa_method : MfaMethod

-- append(codes[:i], codes[i+1:]...) at the first i with codes[i] == hash
unfoldable pub remove_code : String → List String → Option (List String)
remove_code hash [] = none
remove_code hash (bc ∷ codes) =
    let rest = remove_code hash codes in if str_eq bc hash then some codes else keep_head bc rest
  where
    keep_head : String → Option (List String) → Option (List String)
    keep_head bc none = none
    keep_head bc (some left) = some (bc ∷ left)

abbrev is_verified : Option MfaMethod → Bool
is_verified none = false
is_verified (some m) = m.verified

module _ (w : World) where
  -- Repository.FindByUserAndType
  unfoldable pub find_by_user_and_type : ℕ → String → Exec State (Option MfaMethod)
  unfolding ◌>>=◌
  find_by_user_and_type user kind =
      query (w.breaks find_mfa_by_type)
        (λ s. first (λ m. m.user_id == user && str_eq m.kind kind) s.mfa_methods)

  -- Repository.FindVerifiedByUser
  unfoldable pub find_verified_by_user : ℕ → Exec State (Option MfaMethod)
  unfolding ◌>>=◌
  find_verified_by_user user =
      query (w.breaks find_mfa) (λ s. first (λ m. m.user_id == user && m.verified) s.mfa_methods)

  -- Repository.Update, a `Save`
  unfoldable pub update_method : MfaMethod → Exec State Unit
  unfolding ◌>>=◌
  update_method row = write (w.breaks update_mfa) (λ s. record s {
    db = record s.db { mfa_methods = save_row (λ m. m.id == row.id) row s.mfa_methods };
  })

  abbrev insert_row : MfaMethod → Exec State Unit
  insert_row row s =
      write (w.breaks create_mfa || any (λ m. m.id == row.id) s.mfa_methods)
        (λ s. record s { db = record s.db { mfa_methods = row ∷ s.mfa_methods } }) s

  -- Repository.Create; the row gets its identifier in BeforeCreate
  unfoldable pub insert_method : MfaMethod → Exec State MfaMethod
  unfolding ◌>>=◌ new_uuid
  insert_method row = do
    id ← new_uuid w (internal_error "failed to save MFA method")
    insert_row (record row { id = id })
    pure (record row { id = id })

  -- Repository.Delete
  unfoldable pub delete_method : ℕ → Exec State Unit
  unfolding ◌>>=◌
  delete_method id = write (w.breaks delete_mfa) (λ s. record s {
    db = record s.db { mfa_methods = select (λ m. not (m.id == id)) s.mfa_methods };
  })

  -- the loop of generateBackupCodes: the raw codes and their hashes
  unfoldable pub generate_codes : ℕ → Exec State (List String × List String)
  generate_codes zero = pure ([], [])
  generate_codes (suc n) = do
    code ← generate w (internal_error "failed to generate backup codes")
    rest ← generate_codes n
    pure (code ∷ rest.0, w.hash_token code ∷ rest.1)

  abbrev pub backup_code_count : ℕ
  backup_code_count = 10

  -- Unix seconds of the wall clock in steps of totpPeriodSeconds
  abbrev pub current_step : ℕ
  current_step = w.wall / second / 30

  module _ (totp : Totp) where
    abbrev key_of : Option (String × String) → Result (String × String)
    key_of none = err (internal_error "failed to generate TOTP key")
    key_of (some key) = ok key

    unfoldable pub generate_totp : String → Exec State (String × String)
    generate_totp email s =
        (key_of (totp.generate_key s.draws email), record s { draws = s.draws + 1 })

    abbrev drop_pending : Option MfaMethod → Exec State Unit
    drop_pending none = pure tt
    drop_pending (some m) = ignore (delete_method m.id)

    abbrev pub pending_method : ℕ → String → MfaMethod
    pending_method user secret = record {
      id = 0;
      user_id = user;
      kind = "totp";
      secret = secret;
      verified = false;
      backup_codes = [];
      last_used_totp_step = 0;
    }

    unfoldable pub enroll : ℕ → (email : String) → Exec State EnrollResponse
    enroll user email = do
      existing ←
          or_raise (internal_error "failed to check existing MFA")
            (find_by_user_and_type user "totp")
      fail_if (is_verified existing) (conflict "TOTP already enrolled and verified")
      drop_pending existing
      key ← generate_totp email
      stored ←
          or_raise (internal_error "failed to save MFA method")
            (insert_method (pending_method user key.0))
      pure (record { secret = key.0; url = key.1; mfa_method = stored })

    unfoldable pub verify : ℕ → (code : String) → Exec State (List String)
    verify user code = do
      m ← found (not_found "no TOTP enrollment found") (find_by_user_and_type user "totp")
      fail_if m.verified (bad_request "TOTP already verified")
      fail_if (not (totp.validate w.wall code m.secret)) (bad_request "invalid TOTP code")
      codes ← generate_codes backup_code_count
      or_raise (internal_error "failed to activate TOTP")
          (update_method (record m { verified = true; backup_codes = codes.1 }))
      pure codes.0

    -- the branch of a valid TOTP code
    unfoldable pub accept_totp : MfaMethod → Exec State Bool
    unfolding ◌>>=◌ update_method
    accept_totp m = do
      fail_if (leb current_step m.last_used_totp_step)
          (unauthorized "TOTP code already used; wait for the next code")
      or_raise (internal_error "authentication failed; please retry")
          (update_method (record m { last_used_totp_step = current_step }))
      pure true

    -- the loop over the backup codes
    unfoldable pub accept_backup : MfaMethod → Option (List String) → Exec State Bool
    unfolding ◌>>=◌ update_method
    accept_backup m none = pure false
    accept_backup m (some left) = do
      or_raise (internal_error "authentication failed; please retry")
          (update_method (record m { backup_codes = left }))
      pure true

    unfoldable pub validate_method : (code : String) → Option MfaMethod → Exec State Bool
    unfolding ◌>>=◌ accept_totp accept_backup remove_code
    validate_method code none = pure false
    validate_method code (some m) =
        branch (totp.validate w.wall code m.secret) (accept_totp m)
          (accept_backup m (remove_code (w.hash_token code) m.backup_codes))

    unfoldable pub validate_code : ℕ → (code : String) → Exec State Bool
    unfolding ◌>>=◌ find_verified_by_user validate_method
    validate_code user code = do m ← optional (find_verified_by_user user); validate_method code m

    unfoldable pub has_mfa : ℕ → Exec State Bool
    unfolding ◌>>=◌ find_verified_by_user
    has_mfa user = do m ← find_verified_by_user user; pure (is_some m)

    abbrev delete_found : Option MfaMethod → Exec State Unit
    delete_found none = pure tt
    delete_found (some m) = or_raise (internal_error "failed to disable MFA") (delete_method m.id)

    unfoldable pub force_disable : ℕ → Exec State Unit
    unfolding ◌>>=◌ find_verified_by_user delete_method
    force_disable user = do
      m ← or_raise (internal_error "failed to look up MFA") (find_verified_by_user user)
      delete_found m

    unfoldable pub disable : ℕ → (code : String) → Exec State Unit
    unfolding ◌>>=◌ find_verified_by_user delete_method
    disable user code = do
      m ← found (not_found "no verified MFA method found") (find_verified_by_user user)
      fail_if (not (totp.validate w.wall code m.secret)) (bad_request "invalid TOTP code")
      or_raise (internal_error "failed to disable MFA") (delete_method m.id)

    unfoldable pub regenerate_backup_codes : ℕ → (code : String) → Exec State (List String)
    regenerate_backup_codes user code = do
      m ← found (not_found "no verified MFA method found") (find_verified_by_user user)
      fail_if (not (totp.validate w.wall code m.secret)) (bad_request "invalid TOTP code")
      codes ← generate_codes backup_code_count
      or_raise (internal_error "failed to save backup codes")
          (update_method (record m { backup_codes = codes.1 }))
      pure codes.0
