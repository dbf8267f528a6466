-- ===== src/Users/Signup.antt =====
-- user/service.go: Register, and the verification of an address by a signed link that is used once.
pub mod Registered
pub mod Verification
pub mod Collaborator
pub mod Endpoint
use orion_auth_backend.Prelude.{
  ℕ, ◌+◌, ◌*◌, String, Bool, true, false, not, ◌&&◌, ◌||◌, List, [], ◌∷◌, Option, none, some, ltb,
  ◌==◌, str_eq, first, any, is_some, deref_or, if◌then◌else◌,
}
use orion_auth_backend.Errors.{Error, bad_request, conflict, internal_error, not_found, panic}
use orion_auth_backend.Exec.{
  Exec, Result, ok, err, pure, lift, query, write, or_raise, require, fail_if, when, branch, ◌>>=◌,
  ◌>>◌,
}
use orion_auth_backend.Model.{User, State}
use orion_auth_backend.World.{second, generate, new_uuid, create_user, find_user_by_verify}
use orion_auth_backend.ActionToken.{ActionClaims, Jwt, Parsed, token, invalid, panics, sign, parse}
use orion_auth_backend.Password.{validate}
use orion_auth_backend.Oauth.Modify.{Fields}
use orion_auth_backend.Oauth.Service.{RegisterInput}
use orion_auth_backend.Oauth.Repository.{transaction}
use orion_auth_backend.Users.{
  Accounts, normalize_email, user_by_email, user_row, get_by_id, hash, update_fields, is_text,
  is_after,
}

-- The key that signs the links, with the JWT library that it is given to.
pub record ActionTokens : Type 0 where
  pub jwt : Jwt
  pub key : String

-- The collaborators of registration, none where one is not wired: the registration form on a context,
-- the default role with its assigner, the signing key, none where it is empty, the mail queue, and the
-- text of a UUID.
pub record Signups : Type 0 where
  pub accounts : Accounts
  pub open accounts use *
  pub apply_reg_form : Option (User → Fields → String → Result User)
  pub assign_default_role : Option (ℕ → Result {0} Unit)
  pub action_tokens : Option ActionTokens
  pub email_sender : Option ((email link : String) → Result {0} Unit)
  pub reset_sender : Option ((email link : String) → Result {0} Unit)
  pub uuid_text : ℕ → String

module _ (r : Signups) where
  abbrev pub new_user : RegisterInput → (email hash : String) → User
  new_user input email hash = record {
    id = 0;
    email = email;
    email_verified = false;
    email_verify_token = none;
    email_verify_expires_at = none;
    password_hash = some hash;
    must_set_password = false;
    password_reset_token = none;
    password_reset_expires_at = none;
    display_name = input.display_name;
    locked_until = none;
    failed_login_attempts = 0;
    active = true;
  }

  abbrev extended : User → Fields → Option (User → Fields → String → Result User) → Result User
  extended u fields none = ok u
  extended u fields (some apply) = apply u fields "register"

  -- applyRegFormExtras
  unfoldable pub apply_reg_form_extras : User → Fields → Result User
  apply_reg_form_extras u fields = extended u fields r.apply_reg_form

  abbrev add_user : User → Exec State User
  add_user row s =
      if r.breaks create_user || any (λ u. u.id == row.id || str_eq u.email row.email) s.users
      then (err (internal_error "failed to create user"), s)
      else (ok row, record s { db = record s.db { users = row ∷ s.users } })

  -- Create; the row gets its identifier in BeforeCreate
  unfoldable pub insert_user : User → Exec State User
  unfolding ◌>>=◌ new_uuid
  insert_user row = do
    id ← new_uuid r.world (internal_error "failed to create user")
    add_user (record row { id = id })

  abbrev assigned : ℕ → Option (ℕ → Result {0} Unit) → Result {0} Unit
  assigned user none = ok tt
  assigned user (some assign) = elim (assign user) [
    | ok _ ↦ ok tt
    | err _ ↦ err (internal_error "failed to assign default role")
  ]

  abbrev signed : Option String → Result String
  signed none = err (internal_error "failed to sign verification token")
  signed (some link) = ok link

  abbrev sent : String → String → Option ((email link : String) → Result {0} Unit) → Result {0} Unit
  sent email link none = ok tt
  sent email link (some send) = send email link

  abbrev pub verify_claims : User → Option ℕ → ℕ → ActionClaims
  verify_claims u request jti = record {
    subject = u.id;
    action = "verify_email";
    jti = r.uuid_text jti;
    request_id = request;
    issued_at = r.now;
    expires_at = r.now + 86400 * second;
  }

  abbrev pub awaits : ℕ → User → User
  awaits jti row = record row {
    email_verify_token = some (r.uuid_text jti);
    email_verify_expires_at = some (r.now + 86400 * second);
  }

  -- enqueueVerifyEmailInTx
  unfoldable pub enqueue_verify_email : Option ActionTokens → User → Option ℕ → Exec State Unit
  unfolding ◌>>=◌ new_uuid update_fields
  enqueue_verify_email none u request = pure tt
  enqueue_verify_email (some tokens) u request = do
    jti ← new_uuid r.world (internal_error "failed to generate verification jti")
    link ← lift (signed (sign tokens.jwt tokens.key (verify_claims u request jti)))
    or_raise (internal_error "failed to store verification jti")
        (update_fields r.accounts u.id (awaits jti))
    lift (sent u.email link r.email_sender)

  -- the body of Register's transaction
  unfoldable pub create_with_role : User → Bool → Exec State User
  create_with_role row skip = do
    u ← insert_user row
    lift (assigned u.id r.assign_default_role)
    when (not skip) (enqueue_verify_email r.action_tokens u none)
    pure u

  unfoldable pub register : RegisterInput → Exec State User
  register input = do
    let email = normalize_email r.accounts input.email
    lift (
        validate r.unicode r.strength r.password_policy input.password
          (email ∷ deref_or "" input.display_name ∷ []))
    existing ←
        or_raise (internal_error "failed to check existing user") (user_by_email r.accounts email)
    fail_if (is_some existing) (conflict "email already registered")
    h ← hash r.accounts input.password
    row ← lift (apply_reg_form_extras (new_user input email h) input.extra_fields)
    transaction r.world (create_with_role row input.skip_verification_email)

  abbrev configured : Option ActionTokens → Bool
  configured o = is_some o

  -- SendVerificationEmail
  unfoldable pub send_verification_email : ℕ → Option ℕ → Exec State Unit
  send_verification_email user request = do
    u ← get_by_id r.accounts user
    fail_if u.email_verified (bad_request "email already verified")
    fail_if (not (configured r.action_tokens))
        (internal_error "action token signing key not configured")
    transaction r.world (enqueue_verify_email r.action_tokens u request)

  abbrev resend_to : Option User → Option ℕ → Exec State Unit
  resend_to none request = pure tt
  resend_to (some u) request =
      branch u.email_verified (pure tt) (send_verification_email u.id request)

  -- ResendVerificationEmail
  unfoldable pub resend_verification_email : String → Option ℕ → Exec State Unit
  resend_verification_email email request = do
    row ←
        or_raise (internal_error "failed to look up user")
          (user_by_email r.accounts (normalize_email r.accounts email))
    resend_to row request

  abbrev pub verifies_with : String → User → Bool
  verifies_with jti u =
      is_text r.accounts jti u.email_verify_token
      && is_after r.accounts r.wall u.email_verify_expires_at

  -- FindByVerifyToken
  unfoldable pub user_by_verify_token : String → Exec State (Option User)
  unfolding ◌>>=◌
  user_by_verify_token jti =
      query (r.breaks find_user_by_verify) (λ s. first (verifies_with jti) s.users)

  abbrev parsed_by : Option ActionTokens → String → Result ActionClaims
  parsed_by none raw = err (internal_error "action token signing key not configured")
  parsed_by (some tokens) raw = elim (parse tokens.jwt r.wall tokens.key raw) [
    | token claims ↦ ok claims
    | invalid ↦ err (bad_request "invalid or expired verification token")
    | panics ↦ err panic
  ]

  abbrev pub verified_row : User → User
  verified_row row = record row {
    email_verified = true;
    email_verify_token = none;
    email_verify_expires_at = none;
  }

  -- ConsumeVerificationToken
  unfoldable pub consume_verification_token : String → Exec State (User × Option ℕ)
  consume_verification_token raw = do
    claims ← lift (parsed_by r.action_tokens raw)
    fail_if (not (str_eq claims.action "verify_email")) (bad_request "invalid token action")
    row ← or_raise (internal_error "failed to verify email") (user_by_verify_token claims.jti)
    u ← require (bad_request "invalid or expired verification token") row
    fail_if (not (u.id == claims.subject)) (bad_request "invalid or expired verification token")
    or_raise (internal_error "failed to mark email verified")
        (update_fields r.accounts u.id verified_row)
    pure (u, claims.request_id)

  abbrev pub resettable : String → User → User
  resettable raw row = record row {
    password_reset_token = some (r.hash_token raw);
    password_reset_expires_at = some (r.now + 3600 * second);
  }

  -- the body of issuePasswordResetInTx's transaction
  unfoldable pub store_reset_token : User → String → Exec State Unit
  unfolding update_fields
  store_reset_token u raw = do
    or_raise (internal_error "failed to store reset token")
        (update_fields r.accounts u.id (resettable raw))
    lift (sent u.email raw r.reset_sender)

  -- issuePasswordResetInTx
  unfoldable pub issue_password_reset : User → Exec State Unit
  issue_password_reset u = do
    raw ← generate r.world (internal_error "failed to generate reset token")
    transaction r.world (store_reset_token u raw)

  abbrev forgotten : Result (Option User) → Exec State Unit
  forgotten (ok (some u)) = issue_password_reset u
  forgotten _ = pure tt

  -- ForgotPassword: a failed look-up is no error
  unfoldable pub forgot_password : String → Exec State Unit
  unfolding user_by_email
  forgot_password email s =
      let (found, s') = user_by_email r.accounts (normalize_email r.accounts email) s in
      forgotten found s'

  -- AdminTriggerPasswordReset
  unfoldable pub admin_trigger_password_reset : ℕ → Exec State Unit
  unfolding ◌>>=◌
  admin_trigger_password_reset user = do
    row ← or_raise (internal_error "failed to find user") (user_row r.accounts user)
    u ← require (not_found "user not found") row
    issue_password_reset u
