-- ===== src/Users/Login.antt =====
-- user/service.go: what a login that returns rests on.
use orion_auth_backend.Prelude.{
  String, ◌≡◌, sym, ap, ◌∙◌, Bool, true, false, not, ◌&&◌, Option, some, arith, first, str_eq,
}
use orion_auth_backend.Errors.{Error}
use orion_auth_backend.Exec.{ok, or_raise, ◌>>=◌, bind_ok, pure_ok, guard_ok, present_ok}
use orion_auth_backend.Model.{User, State}
use orion_auth_backend.Oauth.Service.{LoginInput}
use orion_auth_backend.Users.{
  Accounts, normalize_email, user_by_email, is_locked, check_password, maybe_rehash, admit_user,
  authenticate, requires_email_verification,
}

module _ (a : Accounts) where
  row_ok :
      (e : Error) (email : String) (s s' : State) (o : Option User)
      → or_raise e (user_by_email a email) s ≡ (ok o, s')
      → (s' ≡ s) × (first (λ u. str_eq u.email email) s.users ≡ o)
  unfolding user_by_email ◌>>=◌
  row_ok e email s s' o h = (ground arith, ground arith)

  check_password_ok :
      (u : User) (password hash : String) (s s' : State) (needs : Bool)
      → check_password a u password hash s ≡ (ok needs, s')
      → (s' ≡ s) × (a.verify_identify password hash ≡ some (true, needs))
  unfolding check_password
  check_password_ok u password hash s s' needs h = (ground arith, ground arith)

  maybe_rehash_ok :
      (u v : User) (password : String) (needs : Bool) (s s' : State)
      → maybe_rehash a u password needs s ≡ (ok v, s')
      → v.id ≡ u.id
  unfolding maybe_rehash
  maybe_rehash_ok u v password needs s s' h = ground arith

  -- What a login rests on.
  pub record IsAuthentic (input : LoginInput) (s : State) (v : User) : Type 0 where
    pub row : User
    pub found : first (λ u. str_eq u.email (normalize_email a input.email)) s.users ≡ some row
    pub same_user : v.id ≡ row.id
    pub active : row.active ≡ true
    pub unlocked : is_locked a.now row ≡ false
    pub hash : String
    pub has_password : row.password_hash ≡ some hash
    pub needs_rehash : Bool
    pub matches : a.verify_identify input.password hash ≡ some (true, needs_rehash)
    pub verified : (not row.email_verified && requires_email_verification a) ≡ false

  admit_user_ok :
      (u v : User) (password : String) (needs : Bool) (s s' : State)
      → admit_user a u password needs s ≡ (ok v, s')
      → (v.id ≡ u.id) × ((not u.email_verified && requires_email_verification a) ≡ false)
  unfolding admit_user
  admit_user_ok u v password needs s s' h =
      let (x, s1, e1, k1) = bind_ok _ _ s h in
      let (_, s2, e2, k2) = bind_ok _ _ s1 k1 in
      let (_, s3, e3, k3) = bind_ok _ _ s2 k2 in
      let (same, there) = pure_ok _ _ _ _ k3 in
      (
        ap (λ (w : User). w.id) (sym same) ∙ maybe_rehash_ok u x password needs s s1 e1,
        (guard_ok _ _ _ _ _ e2).1,
      )

  -- A login returns only the user whose row is found under the normalized address: active, not locked,
  -- with a local password that the hasher accepts, and with a verified address unless the gate lets
  -- unverified ones in.
  pub authenticate-IsAuthentic :
      (input : LoginInput) (s s' : State) (v : User)
      → authenticate a input s ≡ (ok v, s')
      → IsAuthentic input s v
  unfolding authenticate
  authenticate-IsAuthentic input s s' v h =
      let (o, s1, e1, k1) = bind_ok _ _ s h in
      let (u, s2, e2, k2) = bind_ok _ _ s1 k1 in
      let (_, s3, e3, k3) = bind_ok _ _ s2 k2 in
      let (_, s4, e4, k4) = bind_ok _ _ s3 k3 in
      let (t, s5, e5, k5) = bind_ok _ _ s4 k4 in
      let (needs, s6, e6, k6) = bind_ok _ _ s5 k5 in
      let (same, verified) = admit_user_ok u v input.password needs s6 s' k6 in
      let active : not u.active ≡ false = (guard_ok _ _ _ _ _ e3).1 in
      record {
        row = u;
        found = (row_ok _ _ _ _ _ e1).1 ∙ (present_ok _ _ _ _ _ e2).1;
        same_user = same;
        active = ground arith;
        unlocked = (guard_ok _ _ _ _ _ e4).1;
        hash = t;
        has_password = (present_ok _ _ _ _ _ e5).1;
        needs_rehash = needs;
        matches = (check_password_ok _ _ _ _ _ _ e6).1;
        verified = verified;
      }
