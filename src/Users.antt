-- ===== src/Users.antt =====
-- user/service.go and user/repository.go: the login with its lockout, and the ways to set a password.
pub mod Login
pub mod Lockout
pub mod Reset
pub mod Signup
use orion_auth_backend.Prelude.{
  ℕ, ◌+◌, ◌*◌, String, ◌≡◌, Bool, true, false, not, ◌&&◌, ◌∷◌, [], List, Option, none, some, ℤ, pos,
  ltb, ltb_ℤ, ◌==◌, str_eq, first, update_where, is_some, deref_or, if◌then◌else◌,
}
use orion_auth_backend.Errors.{
  Error, bad_request, not_found, unauthorized, forbidden, internal_error, account_locked,
  email_not_verified, database,
}
use orion_auth_backend.Exec.{
  Exec, Result, ok, err, pure, lift, query, write, or_raise, found, optional, require, fail_if,
  when, ignore, branch, ◌>>=◌, ◌>>◌,
}
use orion_auth_backend.Model.{User, State}
use orion_auth_backend.World.{
  World, second, find_user, find_user_by_email, update_user_fields, find_user_by_reset,
}
use orion_auth_backend.Text.{Unicode, trim_space, to_lower}
use orion_auth_backend.Password.{PasswordPolicy, validate}
use orion_auth_backend.Oauth.Service.{LoginInput}

pub record ChangePasswordInput : Type 0 where
  pub current_password : String
  pub new_password : String

pub record ResetPasswordInput : Type 0 where
  pub token : String
  pub new_password : String

-- The Service struct of user/service.go, as far as the login and the passwords use it.
pub record Accounts : Type 0 where
  pub world : World
  pub open world use *
  pub unicode : Unicode
  -- the policy that the password validator's provider gives, and the score of zxcvbn
  pub password_policy : Option PasswordPolicy
  pub strength : String → List String → ℤ
  -- the hasher: VerifyIdentify gives no error, or whether the password matches and whether the hash
  -- is of another scheme; Hash uses a draw of the random generator
  pub verify_identify : (password hash : String) → Option (Bool × Bool)
  pub hash_password : (draw : ℕ) (password : String) → Option String
  pub verifies_own :
      (draw : ℕ) (password hash : String)
      → hash_password draw password ≡ some hash
      → verify_identify password hash ≡ some (true, false)
  pub max_fail_attempts : ℤ
  pub lockout_duration : ℕ
  pub email_verify_gate : Option Bool

-- user.LockedUntil != nil && user.LockedUntil.After(now)
abbrev pub is_locked : ℕ → User → Bool
is_locked now u = elim u.locked_until [ none ↦ false | some t ↦ ltb now t ]

abbrev pub wrong_credentials : Error
wrong_credentials = unauthorized "invalid email or password"

-- `err != nil || !match` is an error, else whether a rehash is needed
abbrev pub matched : Error → Option (Bool × Bool) → Result Bool
matched e (some (true, needs_rehash)) = ok needs_rehash
matched e _ = err e

module _ (a : Accounts) where
  -- the normalization of every e-mail address that comes in
  unfoldable pub normalize_email : String → String
  unfolding to_lower trim_space
  normalize_email email = to_lower a.unicode (trim_space a.unicode email)

  -- FindByEmail, FindByID, FindByResetToken and UpdateFields of user/repository.go
  unfoldable pub user_by_email : String → Exec State (Option User)
  unfolding ◌>>=◌
  user_by_email email =
      query (a.breaks find_user_by_email) (λ s. first (λ u. str_eq u.email email) s.users)

  unfoldable pub user_row : ℕ → Exec State (Option User)
  unfolding ◌>>=◌
  user_row id = query (a.breaks find_user) (λ s. first (λ u. u.id == id) s.users)

  abbrev pub is_text : String → Option String → Bool
  is_text t none = false
  is_text t (some x) = str_eq x t

  abbrev pub is_after : ℕ → Option ℕ → Bool
  is_after now none = false
  is_after now (some t) = ltb now t

  abbrev pub resets_with : String → User → Bool
  resets_with hash u =
      is_text hash u.password_reset_token && is_after a.wall u.password_reset_expires_at

  unfoldable pub user_by_reset_token : String → Exec State (Option User)
  unfolding ◌>>=◌
  user_by_reset_token hash =
      query (a.breaks find_user_by_reset) (λ s. first (resets_with hash) s.users)

  unfoldable pub update_fields : ℕ → (User → User) → Exec State Unit
  unfolding ◌>>=◌
  update_fields id change =
      write (a.breaks update_user_fields) (λ s. record s {
        db = record s.db { users = update_where (λ u. u.id == id) change s.users };
      })

  -- hasher.Hash
  abbrev pub hashed : Option String → Result String
  hashed none = err (internal_error "failed to hash password")
  hashed (some h) = ok h

  unfoldable pub hash : String → Exec State String
  hash password s = (hashed (a.hash_password s.draws password), record s { draws = s.draws + 1 })

  -- GetByID
  unfoldable pub get_by_id : ℕ → Exec State User
  unfolding user_row ◌>>=◌
  get_by_id id = do
    row ← or_raise (internal_error "failed to find user") (user_row id)
    require (not_found "user not found") row

  abbrev pub lock_from : User → Option ℕ
  lock_from u =
      if ltb_ℤ (pos (u.failed_login_attempts + 1)) a.max_fail_attempts
      then none
      else some (a.now + a.lockout_duration)

  abbrev pub kept_or : Option ℕ → Option ℕ → Option ℕ
  kept_or old none = old
  kept_or old (some t) = some t

  -- the fields that incrementFailedAttempts writes, from the row that was read
  abbrev pub failed_once : User → User → User
  failed_once u row = record row {
    failed_login_attempts = u.failed_login_attempts + 1;
    locked_until = kept_or row.locked_until (lock_from u);
  }

  unfoldable pub increment_failed_attempts : User → Exec State Unit
  unfolding update_fields ◌>>=◌
  increment_failed_attempts u = ignore (update_fields u.id (failed_once u))

  abbrev persisted : User → String → Result {0} Unit → User
  persisted u h (ok _) = record u { password_hash = some h }
  persisted u h (err _) = u

  abbrev rehash_with : User → Result String → Exec State User
  rehash_with u (err _) s = (ok u, s)
  rehash_with u (ok h) s =
      let (r, s') = update_fields u.id (λ row. record row { password_hash = some h }) s in
      (ok (persisted u h r), s')

  -- maybeRehash, with the user as it leaves it
  unfoldable pub maybe_rehash : User → String → Bool → Exec State User
  unfolding hash update_fields
  maybe_rehash u password false s = (ok u, s)
  maybe_rehash u password true s = let (r, s') = hash password s in rehash_with u r s'

  -- the check of the password, whose failure is counted
  unfoldable pub check_password : User → (password hash : String) → Exec State Bool
  unfolding increment_failed_attempts
  check_password u password hash s = elim (a.verify_identify password hash) [
    | none ↦ (err wrong_credentials, (increment_failed_attempts u s).1)
    | some (match, needs_rehash) ↦
        if match
        then (ok needs_rehash, s)
        else (err wrong_credentials, (increment_failed_attempts u s).1)
  ]

  abbrev pub requires_email_verification : Bool
  requires_email_verification = deref_or true a.email_verify_gate

  abbrev pub no_failures : User → User
  no_failures row = record row { failed_login_attempts = 0; locked_until = none }

  -- the end of Authenticate, once the password is right
  unfoldable pub admit_user : User → String → Bool → Exec State User
  admit_user u password needs_rehash = do
    v ← maybe_rehash u password needs_rehash
    fail_if (not u.email_verified && requires_email_verification)
        (email_not_verified "verify your email to sign in")
    when (ltb 0 u.failed_login_attempts) (ignore (update_fields u.id no_failures))
    pure v

  unfoldable pub authenticate : LoginInput → Exec State User
  authenticate input = do
    row ←
        or_raise (internal_error "failed to find user")
          (user_by_email (normalize_email input.email))
    u ← require wrong_credentials row
    fail_if (not u.active) (forbidden "account is deactivated")
    fail_if (is_locked a.now u)
        (account_locked "account is temporarily locked due to too many failed login attempts")
    hash ← require wrong_credentials u.password_hash
    needs_rehash ← check_password u input.password hash
    admit_user u input.password needs_rehash

  -- VerifyPassword; an error of the hasher comes back as it is, like one of the driver
  abbrev confirmed : User → String → Option (Bool × Bool) → Exec State Bool
  confirmed u password none s = (err database, s)
  confirmed u password (some (match, needs_rehash)) s =
      (ok match, if match then (maybe_rehash u password needs_rehash s).1 else s)

  abbrev confirm_hash : User → String → Option String → Exec State Bool
  confirm_hash u password none s = (ok false, s)
  confirm_hash u password (some h) s = confirmed u password (a.verify_identify password h) s

  abbrev confirm_row : String → Option User → Exec State Bool
  confirm_row password none s = (ok false, s)
  confirm_row password (some u) s = confirm_hash u password u.password_hash s

  unfoldable pub verify_password : ℕ → String → Exec State Bool
  unfolding maybe_rehash
  verify_password id password = do row ← user_row id; confirm_row password row

  -- Unlock
  unfoldable pub unlock : ℕ → Exec State Unit
  unfolding update_fields
  unlock id = update_fields id no_failures

  abbrev name_hint : Option String → List String
  name_hint none = []
  name_hint (some name) = if str_eq name "" then [] else name ∷ []

  abbrev hints_of : Option User → List String
  hints_of none = []
  hints_of (some u) = u.email ∷ name_hint u.display_name

  -- validatePassword, with the hints of userHintsForID
  unfoldable pub validate_for : ℕ → String → Exec State Unit
  unfolding user_row ◌>>=◌
  validate_for id password = do
    row ← optional (user_row id)
    lift (validate a.unicode a.strength a.password_policy password (hints_of row))

  abbrev pub with_password : String → User → User
  with_password h row = record row { password_hash = some h; must_set_password = false }

  -- SetPassword
  unfoldable pub set_password : ℕ → String → Exec State Unit
  set_password id password = do
    validate_for id password
    h ← hash password
    update_fields id (with_password h)

  -- SetInitialPassword
  unfoldable pub set_initial_password : ℕ → String → Exec State Unit
  set_initial_password id password = do
    validate_for id password
    u ← get_by_id id
    fail_if (is_some u.password_hash && not u.must_set_password)
        (bad_request "password already set; use the change-password endpoint instead")
    h ← hash password
    update_fields id (with_password h)

  -- ChangePassword
  unfoldable pub change_password : ℕ → ChangePasswordInput → Exec State Unit
  change_password id input = do
    validate_for id input.new_password
    u ← get_by_id id
    old ←
        require
          (bad_request "account has no password set yet; use the set-password endpoint instead")
          u.password_hash
    lift (
        matched (unauthorized "current password is incorrect")
          (a.verify_identify input.current_password old))
    h ← hash input.new_password
    update_fields id (λ row. record row { password_hash = some h })

  abbrev pub reset_to : String → User → User
  reset_to h row = record row {
    password_hash = some h;
    password_reset_token = none;
    password_reset_expires_at = none;
    failed_login_attempts = 0;
    locked_until = none;
  }

  -- ResetPassword
  unfoldable pub reset_password : ResetPasswordInput → Exec State Unit
  reset_password input = do
    lift (validate a.unicode a.strength a.password_policy input.new_password [])
    row ←
        or_raise (internal_error "failed to verify reset token")
          (user_by_reset_token (a.hash_token input.token))
    u ← require (bad_request "invalid or expired reset token") row
    h ← hash input.new_password
    update_fields u.id (reset_to h)
