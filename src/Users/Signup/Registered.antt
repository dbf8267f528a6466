-- ===== src/Users/Signup/Registered.antt =====
-- user/service.go: what a registration adds, and that one that fails adds nothing.
use orion_auth_backend.Prelude.{
  ℕ, String, ◌≡◌, refl, sym, ap, ◌∙◌, Bool, true, false, not, [], ◌∷◌, Option, none, some, arith,
  first, any, is_some, deref_or, str_eq, ◌==◌, ◌||◌,
}
use orion_auth_backend.Errors.{Error}
use orion_auth_backend.Exec.{
  Exec, Result, ok, err, or_raise, fail_if, when, ◌>>=◌, bind_ok, lift_ok, pure_ok,
}
use orion_auth_backend.Model.{User, State, Database}
use orion_auth_backend.Password.{validate}
use orion_auth_backend.Oauth.Service.{RegisterInput}
use orion_auth_backend.Oauth.Repository.{transaction}
use orion_auth_backend.World.{World, new_uuid}
use orion_auth_backend.Users.{normalize_email, user_by_email, hash}
use orion_auth_backend.Users.Signup.{
  Signups, new_user, apply_reg_form_extras, insert_user, create_with_role, register,
}

module _ (r : Signups) where
  lookup_ok :
      (e : Error) (email : String) (s s' : State) (o : Option User)
      → or_raise e (user_by_email r.accounts email) s ≡ (ok o, s')
      → (s' ≡ s) × (first (λ u. str_eq u.email email) s.users ≡ o)
  unfolding user_by_email ◌>>=◌
  lookup_ok e email s s' o h = (ground arith, ground arith)

  none_ok :
      (o : Option User) (e : Error) (s s' : State) (u : Unit {0})
      → fail_if (is_some o) e s ≡ (ok u, s')
      → (s' ≡ s) × (o ≡ none)
  unfolding ◌>>=◌
  none_ok none e s s' u h = (ground arith, refl)
  none_ok (some x) e s s' u h = absurd (ground arith)

  hash_ok :
      (password h : String) (s s' : State)
      → hash r.accounts password s ≡ (ok h, s')
      → (s'.users ≡ s.users) × (r.hash_password s.draws password ≡ some h)
  unfolding hash
  hash_ok password h s s' e = (ground arith, ground arith)

  insert_user_ok :
      (row v : User) (s s' : State)
      → insert_user r row s ≡ (ok v, s')
      → (s'.users ≡ v ∷ s.users)
        × (v ≡ record row { id = v.id })
        × (any (λ u. u.id == v.id || str_eq u.email v.email) s.users ≡ false)
  unfolding insert_user new_uuid ◌>>=◌
  insert_user_ok row v s s' h = (ground arith, ground arith, ground arith)

  skipped :
      (skip : Bool) (m : Exec State Unit) (s s' : State) (u : Unit {0})
      → skip ≡ true
      → when (not skip) m s ≡ (ok u, s')
      → s' ≡ s
  unfolding ◌>>=◌
  skipped true m s s' u skips h = ground arith
  skipped false m s s' u skips h = ground arith

  create_ok :
      (row v : User) (skip : Bool) (s s' : State)
      → skip ≡ true
      → create_with_role r row skip s ≡ (ok v, s')
      → (s'.users ≡ v ∷ s.users)
        × (v ≡ record row { id = v.id })
        × (any (λ u. u.id == v.id || str_eq u.email v.email) s.users ≡ false)
  unfolding create_with_role
  create_ok row v skip s s' skips h =
      let (u, s1, e1, k1) = bind_ok _ _ s h in
      let (_, s2, e2, k2) = bind_ok _ _ s1 k1 in
      let (_, s3, e3, k3) = bind_ok _ _ s2 k2 in
      let (same, there) = pure_ok _ _ _ _ k3 in
      let kept = sym there ∙ skipped _ _ _ _ _ skips e3 ∙ (lift_ok _ _ e2).1 in
      let (added, made, fresh) = insert_user_ok row u s s1 e1 in
      let users = ap (λ (t : State). t.users) kept ∙ added in rw (← same) (users, made, fresh)

  committed :
      {A : Type 0} (w : World) (m : Exec State A) (s s' : State) (v : A)
      → transaction w m s ≡ (ok v, s')
      → (t : State) × (m s ≡ (ok v, t)) × (s'.users ≡ t.users)
  unfolding transaction
  committed {A} w m s s' v h = kept (m s).0 (m s).1 refl refl
    where
      kept :
          (q : Result A) (t : State)
          → (m s).0 ≡ q
          → (m s).1 ≡ t
          → (t : State) × (m s ≡ (ok v, t)) × (s'.users ≡ t.users)
      kept (ok x) t e f =
          let k = rw e at h in
          let same : x ≡ v = ground arith in
          (
            (m s).1,
            ap (λ z. (z, (m s).1)) (e ∙ ap ok same),
            sym (ap (λ (z : Result A × State). z.1.users) k)
                ∙ ap (λ (d : Database). d.users) (w.commits s.db (m s).1.db),
          )
      kept (err x) t e f = let k = rw e at h in absurd (ground arith)

  -- What a registration adds.
  pub record IsRegistered (input : RegisterInput) (s s' : State) (v : User) : Type 0 where
    pub accepted :
        validate r.unicode r.strength r.password_policy input.password
          (normalize_email r.accounts input.email ∷ deref_or "" input.display_name ∷ [])
        ≡ ok tt
    pub unused : first (λ u. str_eq u.email (normalize_email r.accounts input.email)) s.users ≡ none
    pub draw : ℕ
    pub new_hash : String
    pub made : r.hash_password draw input.password ≡ some new_hash
    pub row : User
    pub filled :
        apply_reg_form_extras r
          (new_user r input (normalize_email r.accounts input.email) new_hash)
          input.extra_fields
        ≡ ok row
    pub stored : v ≡ record row { id = v.id }
    pub added : s'.users ≡ v ∷ s.users
    pub fresh : any (λ u. u.id == v.id || str_eq u.email v.email) s.users ≡ false

  -- A registration that returns, as the authorization endpoint calls it, accepted the password under
  -- the policy in force, found no row under the normalized address, and added one row, under a new
  -- identifier and a new address: what the registration form made of an active, unverified user with
  -- the hash of the password.
  pub register-IsRegistered :
      (input : RegisterInput) (s s' : State) (v : User)
      → input.skip_verification_email ≡ true
      → register r input s ≡ (ok v, s')
      → IsRegistered input s s' v
  unfolding register
  register-IsRegistered input s s' v skips h =
      let (_, s1, e1, k1) = bind_ok _ _ s h in
      let (o, s2, e2, k2) = bind_ok _ _ s1 k1 in
      let (_, s3, e3, k3) = bind_ok _ _ s2 k2 in
      let (t, s4, e4, k4) = bind_ok _ _ s3 k3 in
      let (row, s5, e5, k5) = bind_ok _ _ s4 k4 in
      let (valid, same1) = lift_ok _ _ e1 in
      let (same2, looked) = lookup_ok _ _ _ _ _ e2 in
      let (same3, absent) = none_ok _ _ _ _ _ e3 in
      let (same4, made) = hash_ok _ _ _ _ e4 in
      let (filled, same5) = lift_ok _ _ e5 in
      let (t6, ran, users) = committed r.world _ s5 s' v k5 in
      let (added, stored, fresh) = create_ok row v input.skip_verification_email s5 t6 skips ran in
      let kept =
        ap (λ (x : State). x.users) same5
        ∙ same4
        ∙ ap (λ (x : State). x.users) (same3 ∙ same2 ∙ same1) in
      record {
        accepted = valid;
        unused =
            ap
              (λ (x : State).
                first (λ u. str_eq u.email (normalize_email r.accounts input.email)) x.users)
              (sym same1)
            ∙ looked
            ∙ absent;
        draw = s3.draws;
        new_hash = t;
        made = made;
        row = row;
        filled = filled;
        stored = stored;
        added = users ∙ added ∙ ap (◌∷◌ v) kept;
        fresh = ap (any (λ u. u.id == v.id || str_eq u.email v.email)) (sym kept) ∙ fresh;
      }
