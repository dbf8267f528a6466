-- ===== src/Users/Lockout.antt =====
-- user/service.go: wrong passwords lock the account, and a locked account lets no password in.
use orion_auth_backend.Prelude.{
  ◌+◌, ◌<◌, ◌≤◌, ◌⊎◌, String, ◌≡◌, refl, ◌∙◌, Bool, true, false, List, [], ◌∷◌, Option, none, some,
  pos, ltb_ℤ, arith, first, length, All, update_where, first-update_where, str_eq, ◌==◌, inl, inr,
  Bool-cases,
}
use orion_auth_backend.Errors.{Error, account_locked}
use orion_auth_backend.Exec.{err, ◌>>=◌}
use orion_auth_backend.World.{find_user_by_email, update_user_fields}
use orion_auth_backend.Model.{User, State}
use orion_auth_backend.Oauth.Service.{LoginInput}
use orion_auth_backend.Users.{
  Accounts, normalize_email, user_by_email, is_locked, check_password, increment_failed_attempts,
  update_fields, authenticate, failed_once, wrong_credentials,
}

abbrev pub lets_in : Option (Bool × Bool) → Bool
lets_in none = false
lets_in (some (match, needs_rehash)) = match

abbrev pub locked_error : Error
locked_error = account_locked "account is temporarily locked due to too many failed login attempts"

module _ (a : Accounts) (email : String) where
  abbrev pub login_with : String → LoginInput
  login_with password = record { email = email; password = password }

  -- Logins with these passwords one after the other, at one time.
  unfoldable pub tries : List String → State → State
  unfolding authenticate
  tries [] s = s
  tries (password ∷ passwords) s = tries passwords (authenticate a (login_with password) s).1

  abbrev pub row_of : State → Option User
  row_of s = first (λ u. str_eq u.email (normalize_email a email)) s.users

  -- A row that a login meets: active, with a password that these wrong ones do not match.
  pub record IsGuessed (wrong : List String) (u : User) : Type 0 where
    pub active : u.active ≡ true
    pub hash : String
    pub has_password : u.password_hash ≡ some hash
    pub all_wrong : All (λ (p : String). lets_in (a.verify_identify p hash) ≡ false) wrong

  module _ (reads : a.breaks find_user_by_email ≡ false) where
    locked_step :
        (password : String) (s : State) (u : User)
        → row_of s ≡ some u
        → u.active ≡ true
        → is_locked a.now u ≡ true
        → authenticate a (login_with password) s ≡ (err locked_error, s)
    unfolding authenticate user_by_email ◌>>=◌
    locked_step password s u found active locked = rw reads (rw found (rw active (rw locked refl)))

    module _ (writes : a.breaks update_user_fields ≡ false) where
      abbrev after_failure : User → State → State
      after_failure u s = record s {
        db = record s.db { users = update_where (λ r. r.id == u.id) (failed_once a u) s.users };
      }

      rejected :
          (u : User) (password hash : String) (s : State)
          → lets_in (a.verify_identify password hash) ≡ false
          → check_password a u password hash s ≡ (err wrong_credentials, after_failure u s)
      unfolding check_password increment_failed_attempts update_fields ◌>>=◌
      rejected u password hash s wrong = ground arith

      wrong_step :
          (password hash : String) (s : State) (u : User)
          → row_of s ≡ some u
          → u.active ≡ true
          → u.password_hash ≡ some hash
          → lets_in (a.verify_identify password hash) ≡ false
          → is_locked a.now u ≡ false
          → authenticate a (login_with password) s ≡ (err wrong_credentials, after_failure u s)
      unfolding authenticate user_by_email ◌>>=◌
      wrong_step password hash s u found active has wrong unlocked =
          let fails = rejected u password hash s wrong in
          simp (reads, found, active, unlocked, has, fails)

      row_after :
          (s : State) (u : User)
          → row_of s ≡ some u
          → row_of (after_failure u s) ≡ some (failed_once a u u)
      row_after s u found =
          let moved =
            first-update_where (λ (r : User). str_eq r.email (normalize_email a email))
              (λ r. r.id == u.id) (failed_once a u) s.users (λ r hit. refl) in
          moved ∙ (rw found (ground arith))

      module _ (lasts : 0 < a.lockout_duration) where
        -- The account is locked now, or the passwords that are left will lock it.
        abbrev WillLock : List String → User → Type 0
        WillLock wrong u =
            (is_locked a.now u ≡ true)
            ⊎ ((is_locked a.now u ≡ false)
                × (1 ≤ length wrong)
                × (ltb_ℤ (pos (u.failed_login_attempts + length wrong)) a.max_fail_attempts
                    ≡ false))

        next_locks :
            (password : String) (wrong : List String) (u : User)
            → is_locked a.now u ≡ false
            → ltb_ℤ (pos (u.failed_login_attempts + length (password ∷ wrong))) a.max_fail_attempts
              ≡ false
            → WillLock wrong (failed_once a u u)
        next_locks password wrong u unlocked reaches =
            elim (Bool-cases (ltb_ℤ (pos (u.failed_login_attempts + 1)) a.max_fail_attempts)) [
              | inl below ↦ rw below (inr (unlocked, ground arith, ground arith))
              | inr reached ↦ rw reached (inl (ground arith))
            ]

        -- The row that a login meets in the end.
        record IsLockedOut (s : State) : Type 0 where
          user : User
          found : row_of s ≡ some user
          active : user.active ≡ true
          locked : is_locked a.now user ≡ true

        tries-IsLockedOut :
            (wrong : List String) (s : State) (u : User)
            → row_of s ≡ some u
            → IsGuessed wrong u
            → WillLock wrong u
            → IsLockedOut (tries wrong s)
        unfolding tries
        tries-IsLockedOut [] s u found g (inl locked) = record {
          user = u;
          found = found;
          active = g.active;
          locked = locked;
        }
        tries-IsLockedOut [] s u found g (inr (_, some_left, _)) = absurd (ground arith)
        tries-IsLockedOut (p ∷ ps) s u found g (inl locked) =
            let rest : IsGuessed ps u = record {
              active = g.active;
              hash = g.hash;
              has_password = g.has_password;
              all_wrong = g.all_wrong.1;
            } in
            rw (locked_step p s u found g.active locked)
              (tries-IsLockedOut ps s u found rest (inl locked))
        tries-IsLockedOut (p ∷ ps) s u found g (inr (unlocked, _, reaches)) =
            let rest : IsGuessed ps (failed_once a u u) = record {
              active = g.active;
              hash = g.hash;
              has_password = g.has_password;
              all_wrong = g.all_wrong.1;
            } in
            rw (wrong_step p g.hash s u found g.active g.has_password g.all_wrong.0 unlocked) (
              tries-IsLockedOut ps (after_failure u s) (failed_once a u u) (row_after s u found)
                rest (next_locks p ps u unlocked reaches))

        -- Once enough wrong passwords were tried to reach the maximum, together with the failures that
        -- were counted before, every password is refused as locked, the right one too, and the refusal
        -- changes nothing, as long as the lock lasts.
        pub brute_force_stopped :
            (wrong : List String) (password : String) (s : State) (u : User)
            → row_of s ≡ some u
            → IsGuessed wrong u
            → is_locked a.now u ≡ false
            → 1 ≤ length wrong
            → ltb_ℤ (pos (u.failed_login_attempts + length wrong)) a.max_fail_attempts ≡ false
            → authenticate a (login_with password) (tries wrong s)
              ≡ (err locked_error, tries wrong s)
        brute_force_stopped wrong password s u found g unlocked tried reaches =
            let l = tries-IsLockedOut wrong s u found g (inr (unlocked, tried, reaches)) in
            locked_step password (tries wrong s) l.user l.found l.active l.locked
