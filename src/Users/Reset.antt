-- ===== src/Users/Reset.antt =====
-- user/service.go: what a password reset leaves, to a login and to its own token.
use orion_auth_backend.Prelude.{
  ℕ, String, ◌≡◌, ◌≢◌, refl, sym, ap, ◌∙◌, true, false, not, ◌||◌, List, [], ◌∷◌, Option, none,
  some, arith, first, All, update_where, first-update_where, str_eq, ◌==◌,
}
use orion_auth_backend.Errors.{Error}
use orion_auth_backend.Exec.{ok, or_raise, ◌>>=◌, bind_ok, lift_ok, present_ok}
use orion_auth_backend.World.{find_user_by_email}
use orion_auth_backend.Model.{User, State}
use orion_auth_backend.Users.{
  Accounts, ResetPasswordInput, normalize_email, user_by_email, user_by_reset_token, is_locked,
  resets_with, is_text, hash, update_fields, reset_to, reset_password, authenticate, check_password,
  admit_user, maybe_rehash,
}

module _ (a : Accounts) where
  token_row_ok :
      (e : Error) (token : String) (s s' : State) (o : Option User)
      → or_raise e (user_by_reset_token a token) s ≡ (ok o, s')
      → (s' ≡ s) × (first (resets_with a token) s.users ≡ o)
  unfolding user_by_reset_token ◌>>=◌
  token_row_ok e token s s' o h = (ground arith, ground arith)

  hash_ok :
      (password h : String) (s s' : State)
      → hash a password s ≡ (ok h, s')
      → (s'.users ≡ s.users) × (a.hash_password s.draws password ≡ some h)
  unfolding hash
  hash_ok password h s s' e = (ground arith, ground arith)

  update_ok :
      (id : ℕ) (change : User → User) (s s' : State) (u : Unit {0})
      → update_fields a id change s ≡ (ok u, s')
      → s'.users ≡ update_where (λ r. r.id == id) change s.users
  unfolding update_fields ◌>>=◌
  update_ok id change s s' u h = ground arith

  -- What a reset that returned did.
  pub record IsReset (input : ResetPasswordInput) (s s' : State) : Type 0 where
    pub user : User
    pub found : first (resets_with a (a.hash_token input.token)) s.users ≡ some user
    pub draw : ℕ
    pub new_hash : String
    pub made : a.hash_password draw input.new_password ≡ some new_hash
    pub users : s'.users ≡ update_where (λ r. r.id == user.id) (reset_to a new_hash) s.users

  reset_password-IsReset :
      (input : ResetPasswordInput) (s s' : State)
      → reset_password a input s ≡ (ok tt, s')
      → IsReset input s s'
  unfolding reset_password
  reset_password-IsReset input s s' h =
      let (_, s1, e1, k1) = bind_ok _ _ s h in
      let (o, s2, e2, k2) = bind_ok _ _ s1 k1 in
      let (u, s3, e3, k3) = bind_ok _ _ s2 k2 in
      let (t, s4, e4, k4) = bind_ok _ _ s3 k3 in
      let same1 = (lift_ok _ _ e1).1 in
      let (same2, row) = token_row_ok _ _ _ _ _ e2 in
      let (same3, there) = present_ok _ _ _ _ _ e3 in
      let (same4, made) = hash_ok _ _ _ _ e4 in
      let kept = same4 ∙ ap (λ (x : State). x.users) (same3 ∙ same2 ∙ same1) in
      record {
        user = u;
        found =
            ap (λ (x : State). first (resets_with a (a.hash_token input.token)) x.users) (sym same1)
            ∙ row
            ∙ there;
        draw = s3.draws;
        new_hash = t;
        made = made;
        users = update_ok _ _ _ _ _ k4 ∙ ap (update_where _ (reset_to a t)) kept;
      }

  -- The login of a user whose password was just set.
  module _ (email password : String) (s : State) (u : User)
      (reads : a.breaks find_user_by_email ≡ false)
      (found : first (λ r. str_eq r.email (normalize_email a email)) s.users ≡ some u)
      (active : u.active ≡ true) (verified : u.email_verified ≡ true) where
    right_password :
        (h : String)
        → a.verify_identify password h ≡ some (true, false)
        → check_password a u password h s ≡ (ok false, s)
    unfolding check_password
    right_password h right = ground (arith, right)

    fresh_login :
        (h : String)
        → a.verify_identify password h ≡ some (true, false)
        → u.password_hash ≡ some h
        → u.locked_until ≡ none
        → u.failed_login_attempts ≡ 0
        → authenticate a (record { email = email; password = password }) s ≡ (ok u, s)
    unfolding authenticate user_by_email admit_user maybe_rehash ◌>>=◌
    fresh_login h right has unlocked no_failures =
        let open_now : is_locked a.now u ≡ false = rw unlocked refl in
        let passes = right_password h right in
        simp (reads, found, active, verified, open_now, has, passes, no_failures)

  -- After a reset that returned, the user whose row carried the token logs in with the new password,
  -- however many failures and whichever lock there were before, when the account is active and its
  -- address verified, is the one found under the address, and the lookup does not fail.
  pub reset_password-authenticate :
      (input : ResetPasswordInput) (email : String) (s s' : State) (u : User)
      → reset_password a input s ≡ (ok tt, s')
      → first (resets_with a (a.hash_token input.token)) s.users ≡ some u
      → first (λ r. str_eq r.email (normalize_email a email)) s.users ≡ some u
      → u.active ≡ true
      → u.email_verified ≡ true
      → a.breaks find_user_by_email ≡ false
      → (h : String) × (authenticate a (record { email = email; password = input.new_password }) s'
          ≡ (ok (reset_to a h u), s'))
  reset_password-authenticate input email s s' u h by_token by_email active verified reads =
      let r = reset_password-IsReset input s s' h in
      let same : r.user ≡ u = some_inj (sym r.found ∙ by_token) in
      let moved =
        first-update_where (λ (x : User). str_eq x.email (normalize_email a email))
          (λ x. x.id == r.user.id) (reset_to a r.new_hash) s.users (λ x hit. refl) in
      let found =
        ap (first (λ x. str_eq x.email (normalize_email a email))) r.users
        ∙ moved
        ∙ (rw by_email (rw same (ground arith))) in
      (
        r.new_hash,
        fresh_login email input.new_password s' (reset_to a r.new_hash u) reads found active
            verified r.new_hash (a.verifies_own r.draw input.new_password r.new_hash r.made) refl
            refl refl,
      )
    where
      some_inj : {x y : User} → some x ≡ some y → x ≡ y
      some_inj e = cc

  none_left :
      (token h : String) (id : ℕ) (users : List User)
      → All
          (λ (r : User). (not (is_text a token r.password_reset_token) || r.id == id) ≡ true)
          users
      → first (resets_with a token) (update_where (λ r. r.id == id) (reset_to a h) users) ≡ none
  unfolding first update_where
  none_left token h id [] own = refl
  none_left token h id (r ∷ rs) (own, owns) = ground (arith, none_left token h id rs)

  no_row :
      (input : ResetPasswordInput) (s : State)
      → first (resets_with a (a.hash_token input.token)) s.users ≡ none
      → (reset_password a input s).0 ≢ ok tt
  no_row input s absent e =
      let r =
        reset_password-IsReset input s (reset_password a input s).1
          (ap (λ x. (x, (reset_password a input s).1)) e) in
      some_none (sym r.found ∙ absent)
    where
      some_none : {x : User} → some x ≡ none → ⊥
      some_none e = ground arith

  -- After a reset that returned, no other reset with the same token returns, whatever the password,
  -- when no other user's row carries the token.
  pub reset_token_spent :
      (input : ResetPasswordInput) (password : String) (s s' : State) (u : User)
      → reset_password a input s ≡ (ok tt, s')
      → first (resets_with a (a.hash_token input.token)) s.users ≡ some u
      → All
          (λ (r : User).
            (not (is_text a (a.hash_token input.token) r.password_reset_token) || r.id == u.id)
            ≡ true)
          s.users
      → (reset_password a (record { token = input.token; new_password = password }) s').0 ≢ ok tt
  reset_token_spent input password s s' u h by_token own =
      let r = reset_password-IsReset input s s' h in
      let same : r.user ≡ u = some_inj (sym r.found ∙ by_token) in
      let gone =
        ap (first (resets_with a (a.hash_token input.token))) r.users
        ∙ (rw same (none_left (a.hash_token input.token) r.new_hash u.id s.users own)) in
      no_row (record { token = input.token; new_password = password }) s' gone
    where
      some_inj : {x y : User} → some x ≡ some y → x ≡ y
      some_inj e = cc
