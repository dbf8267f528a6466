-- ===== src/Users/Signup/Collaborator.antt =====
-- user/service.go as the UserService of oauth/service.go: Authenticate, Register and
-- SendVerificationEmail, which write no table of the authorization flow.
use orion_auth_backend.Prelude.{
  ℕ, String, ◌≡◌, refl, ap, ◌∙◌, Bool, true, false, Option, none, some, arith,
}
use orion_auth_backend.Exec.{
  Exec, Result, ok, err, pure, lift, or_raise, require, fail_if, when, ignore, ◌>>=◌, bind_keeps,
}
use orion_auth_backend.Errors.{Error}
use orion_auth_backend.Model.{User, State, Database}
use orion_auth_backend.Oauth.Repository.{transaction, succeeded}
use orion_auth_backend.World.{World}
use orion_auth_backend.Oauth.Service.{UserService, LoginInput, RegisterInput}
use orion_auth_backend.Users.{
  Accounts, user_by_email, user_row, get_by_id, hash, update_fields, check_password,
  increment_failed_attempts, maybe_rehash, admit_user, authenticate,
}
use orion_auth_backend.Users.Signup.{
  Signups, ActionTokens, insert_user, enqueue_verify_email, create_with_role, register,
  send_verification_email,
}

-- An action that leaves the authorization requests alone, whether it returns or fails.
pub record IsQuiet {A : Type 0} (m : Exec State A) : Type 0 where
  pub at : (s : State) → (m s).1.auth_requests ≡ s.auth_requests

module _ {A B : Type 0} where
  bind-IsQuiet :
      {m : Exec State A} {f : A → Exec State B}
      → IsQuiet m
      → ((x : A) → IsQuiet (f x))
      → IsQuiet (m >>= f)
  bind-IsQuiet {m} {f} h k = record {
    at = λ s.
        bind_keeps (λ t. t.auth_requests ≡ s.auth_requests) m f s (h.at s)
          λ x e. (k x).at (m s).1 ∙ h.at s;
  }

module _ {A : Type 0} where
  pure-IsQuiet : (x : A) → IsQuiet (pure {S = State} x)
  unfolding ◌>>=◌
  pure-IsQuiet x = record { at = λ s. refl }

  lift-IsQuiet : (x : Result A) → IsQuiet (lift {S = State} x)
  unfolding ◌>>=◌
  lift-IsQuiet x = record { at = λ s. refl }

  require-IsQuiet : (e : Error) (o : Option A) → IsQuiet (require {S = State} e o)
  unfolding ◌>>=◌
  require-IsQuiet e none = record { at = λ s. refl }
  require-IsQuiet e (some x) = record { at = λ s. refl }

  or_raise-IsQuiet : (e : Error) (m : Exec State A) → IsQuiet m → IsQuiet (or_raise e m)
  unfolding ◌>>=◌
  or_raise-IsQuiet e m h = record { at = h.at }

  -- A transaction restores the tables or keeps those of its body.
  transaction-IsQuiet : (w : World) (m : Exec State A) → IsQuiet m → IsQuiet (transaction w m)
  unfolding transaction
  transaction-IsQuiet w m h = record { at = λ s. kept (m s).0 s (m s).1 (h.at s) }
    where
      kept :
          (r : Result A) (s t : State)
          → t.auth_requests ≡ s.auth_requests
          → (w.after_transaction (succeeded r) s.db t.db).auth_requests ≡ s.auth_requests
      kept (ok x) s t e = ap (λ (d : Database). d.auth_requests) (w.commits s.db t.db) ∙ e
      kept (err x) s t e = ap (λ (d : Database). d.auth_requests) (w.rolls_back s.db t.db)

fail_if-IsQuiet : (test : Bool) (e : Error) → IsQuiet (fail_if {S = State} test e)
unfolding ◌>>=◌
fail_if-IsQuiet test e = record { at = λ s. refl }

when-IsQuiet : (test : Bool) (m : Exec State Unit) → IsQuiet m → IsQuiet (when test m)
unfolding ◌>>=◌
when-IsQuiet true m h = record { at = h.at }
when-IsQuiet false m h = record { at = λ s. refl }

module _ (a : Accounts) where
  user_by_email-IsQuiet : (email : String) → IsQuiet (user_by_email a email)
  unfolding user_by_email ◌>>=◌
  user_by_email-IsQuiet email = record { at = λ s. refl }

  get_by_id-IsQuiet : (id : ℕ) → IsQuiet (get_by_id a id)
  unfolding get_by_id user_row ◌>>=◌
  get_by_id-IsQuiet id = record { at = λ s. ground arith }

  hash-IsQuiet : (password : String) → IsQuiet (hash a password)
  unfolding hash
  hash-IsQuiet password = record { at = λ s. refl }

  update_fields-IsQuiet : (id : ℕ) (change : User → User) → IsQuiet (update_fields a id change)
  unfolding update_fields ◌>>=◌
  update_fields-IsQuiet id change = record { at = λ s. ground arith }

  check_password-IsQuiet :
      (u : User) (password h : String) → IsQuiet (check_password a u password h)
  unfolding check_password increment_failed_attempts update_fields ◌>>=◌
  check_password-IsQuiet u password h = record { at = λ s. ground arith }

  maybe_rehash-IsQuiet :
      (u : User) (password : String) (needs : Bool) → IsQuiet (maybe_rehash a u password needs)
  unfolding maybe_rehash hash update_fields ◌>>=◌
  maybe_rehash-IsQuiet u password true = record { at = λ s. ground arith }
  maybe_rehash-IsQuiet u password false = record { at = λ s. refl }

  ignore-IsQuiet : (id : ℕ) (change : User → User) → IsQuiet (ignore (update_fields a id change))
  unfolding ◌>>=◌
  ignore-IsQuiet id change = record { at = (update_fields-IsQuiet id change).at }

  admit_user-IsQuiet :
      (u : User) (password : String) (needs : Bool) → IsQuiet (admit_user a u password needs)
  unfolding admit_user
  admit_user-IsQuiet u password needs = bind-IsQuiet (maybe_rehash-IsQuiet u password needs) λ v.
      bind-IsQuiet (fail_if-IsQuiet _ _)
        λ _. bind-IsQuiet (when-IsQuiet _ _ (ignore-IsQuiet u.id _)) λ _. pure-IsQuiet v

  pub authenticate-IsQuiet : (input : LoginInput) → IsQuiet (authenticate a input)
  unfolding authenticate
  authenticate-IsQuiet input = bind-IsQuiet (or_raise-IsQuiet _ _ (user_by_email-IsQuiet _)) λ row.
      bind-IsQuiet (require-IsQuiet _ row) λ u. bind-IsQuiet (fail_if-IsQuiet _ _) λ _.
        bind-IsQuiet (fail_if-IsQuiet _ _) λ _.
          bind-IsQuiet (require-IsQuiet _ u.password_hash) λ h.
            bind-IsQuiet (check_password-IsQuiet u input.password h)
              λ needs. admit_user-IsQuiet u input.password needs

module _ (r : Signups) where
  insert_user-IsQuiet : (row : User) → IsQuiet (insert_user r row)
  unfolding insert_user ◌>>=◌ orion_auth_backend.World.new_uuid
  insert_user-IsQuiet row = record { at = λ s. ground arith }

  draw-IsQuiet : (e : Error) → IsQuiet (orion_auth_backend.World.new_uuid r.world e)
  unfolding orion_auth_backend.World.new_uuid
  draw-IsQuiet e = record { at = λ s. refl }

  enqueue_verify_email-IsQuiet :
      (tokens : Option ActionTokens) (u : User) (request : Option ℕ)
      → IsQuiet (enqueue_verify_email r tokens u request)
  unfolding enqueue_verify_email
  enqueue_verify_email-IsQuiet none u request = pure-IsQuiet tt
  enqueue_verify_email-IsQuiet (some tokens) u request = bind-IsQuiet (draw-IsQuiet _) λ jti.
      bind-IsQuiet (lift-IsQuiet _) λ token.
        bind-IsQuiet (or_raise-IsQuiet _ _ (update_fields-IsQuiet r.accounts u.id _))
          λ _. lift-IsQuiet _

  create_with_role-IsQuiet : (row : User) (skip : Bool) → IsQuiet (create_with_role r row skip)
  unfolding create_with_role
  create_with_role-IsQuiet row skip = bind-IsQuiet (insert_user-IsQuiet row) λ u.
      bind-IsQuiet (lift-IsQuiet _) λ _.
        bind-IsQuiet (when-IsQuiet _ _ (enqueue_verify_email-IsQuiet _ u none)) λ _. pure-IsQuiet u

  pub register-IsQuiet : (input : RegisterInput) → IsQuiet (register r input)
  unfolding register
  register-IsQuiet input = bind-IsQuiet (lift-IsQuiet _) λ _.
      bind-IsQuiet (or_raise-IsQuiet _ _ (user_by_email-IsQuiet r.accounts _)) λ existing.
        bind-IsQuiet (fail_if-IsQuiet _ _) λ _. bind-IsQuiet (hash-IsQuiet r.accounts _) λ h.
          bind-IsQuiet (lift-IsQuiet _)
            λ row. transaction-IsQuiet r.world _ (create_with_role-IsQuiet row _)

  pub send_verification_email-IsQuiet :
      (user : ℕ) (request : Option ℕ) → IsQuiet (send_verification_email r user request)
  unfolding send_verification_email
  send_verification_email-IsQuiet user request =
      bind-IsQuiet (get_by_id-IsQuiet r.accounts user) λ u. bind-IsQuiet (fail_if-IsQuiet _ _) λ _.
        bind-IsQuiet (fail_if-IsQuiet _ _)
          λ _. transaction-IsQuiet r.world _ (enqueue_verify_email-IsQuiet _ u request)

  unfoldable pub user_service : UserService
  user_service = record {
    authenticate = authenticate r.accounts;
    register = register r;
    send_verification_email = send_verification_email r;
    authenticate_keeps = λ input. (authenticate-IsQuiet r.accounts input).at;
    register_keeps = λ input. (register-IsQuiet input).at;
    send_keeps = λ user request. (send_verification_email-IsQuiet user request).at;
  }
