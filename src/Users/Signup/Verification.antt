-- ===== src/Users/Signup/Verification.antt =====
-- user/service.go: what a verification link proves, and that it is used once.
use orion_auth_backend.Prelude.{
  ℕ, String, ◌≡◌, refl, sym, ap, ◌∙◌, Bool, true, not, Option, none, some, arith, first,
  update_where, str_eq, ◌==◌,
}
use orion_auth_backend.Errors.{Error}
use orion_auth_backend.Exec.{ok, or_raise, fail_if, ◌>>=◌, bind_ok, lift_ok, pure_ok, present_ok}
use orion_auth_backend.Model.{User, State}
use orion_auth_backend.ActionToken.{ActionClaims, token, parse, IsGenuine, parse-IsGenuine}
use orion_auth_backend.Users.{update_fields}
use orion_auth_backend.Users.Signup.{
  Signups, ActionTokens, user_by_verify_token, verifies_with, verified_row, parsed_by,
  consume_verification_token,
}

module _ (r : Signups) where
  lookup_ok :
      (e : Error) (jti : String) (s s' : State) (o : Option User)
      → or_raise e (user_by_verify_token r jti) s ≡ (ok o, s')
      → (s' ≡ s) × (first (verifies_with r jti) s.users ≡ o)
  unfolding user_by_verify_token ◌>>=◌
  lookup_ok e jti s s' o h = (ground arith, ground arith)

  guard_ok :
      (test : Bool) (e : Error) (s s' : State) (u : Unit {0})
      → fail_if (not test) e s ≡ (ok u, s')
      → (s' ≡ s) × (test ≡ true)
  unfolding ◌>>=◌
  guard_ok test e s s' u h = (ground arith, ground arith)

  update_ok :
      (e : Error) (id : ℕ) (change : User → User) (s s' : State) (u : Unit {0})
      → or_raise e (update_fields r.accounts id change) s ≡ (ok u, s')
      → s'.users ≡ update_where (λ x. x.id == id) change s.users
  unfolding update_fields ◌>>=◌
  update_ok e id change s s' u h = ground arith

  parsed_ok :
      (o : Option ActionTokens) (raw : String) (claims : ActionClaims)
      → parsed_by r o raw ≡ ok claims
      → (tokens : ActionTokens) × (o ≡ some tokens)
        × (parse tokens.jwt r.wall tokens.key raw ≡ token claims)
  parsed_ok none raw claims h = absurd (ground arith)
  parsed_ok (some tokens) raw claims h = (tokens, refl, ground arith)

  -- What a consumed verification link proves, and what it wrote.
  pub record IsVerified (raw : String) (s s' : State) (u : User) : Type 0 where
    pub tokens : ActionTokens
    pub configured : r.action_tokens ≡ some tokens
    pub claims : ActionClaims
    pub signed : parse tokens.jwt r.wall tokens.key raw ≡ token claims
    pub genuine : IsGenuine tokens.jwt r.wall tokens.key raw claims
    pub for_verification : str_eq claims.action "verify_email" ≡ true
    pub found : first (verifies_with r claims.jti) s.users ≡ some u
    pub for_user : (u.id == claims.subject) ≡ true
    pub written : s'.users ≡ update_where (λ x. x.id == u.id) (verified_row r) s.users

  -- A verification that returns a user was asked for with a token whose signature verifies under the
  -- service's key and the method HS256, which expires after the time of the call and is made for this
  -- purpose, whose identifier stands, unexpired, in the row of that user, who is the token's subject;
  -- it marks that row as verified, clears the identifier, and writes no other row.
  pub consume_verification_token-IsVerified :
      (raw : String) (s s' : State) (u : User) (request : Option ℕ)
      → consume_verification_token r raw s ≡ (ok (u, request), s')
      → IsVerified raw s s' u
  unfolding consume_verification_token
  consume_verification_token-IsVerified raw s s' u request h =
      let (claims, s1, e1, k1) = bind_ok _ _ s h in
      let (_, s2, e2, k2) = bind_ok _ _ s1 k1 in
      let (o, s3, e3, k3) = bind_ok _ _ s2 k2 in
      let (v, s4, e4, k4) = bind_ok _ _ s3 k3 in
      let (_, s5, e5, k5) = bind_ok _ _ s4 k4 in
      let (_, s6, e6, k6) = bind_ok _ _ s5 k5 in
      let (parsed, same1) = lift_ok _ _ e1 in
      let (same2, purpose) = guard_ok _ _ _ _ _ e2 in
      let (same3, looked) = lookup_ok _ _ _ _ _ e3 in
      let (same4, there) = present_ok _ _ _ _ _ e4 in
      let (same5, owner) = guard_ok _ _ _ _ _ e5 in
      let (answered, ends) = pure_ok _ _ _ _ k6 in
      let (tokens, set, read) = parsed_ok r.action_tokens raw claims parsed in
      let same : v ≡ u = ap (λ (p : User × Option ℕ). p.0) answered in
      let kept = same5 ∙ same4 ∙ same3 ∙ same2 ∙ same1 in
      let users =
        sym (ap (λ (x : State). x.users) ends)
        ∙ update_ok _ _ _ _ _ _ e6
        ∙ ap (λ (x : State). update_where (λ y. y.id == v.id) (verified_row r) x.users) kept in
      rw (← same) (record {
        tokens = tokens;
        configured = set;
        claims = claims;
        signed = read;
        genuine = parse-IsGenuine tokens.jwt r.wall tokens.key raw claims read;
        for_verification = purpose;
        found =
            ap (λ (x : State). first (verifies_with r claims.jti) x.users) (sym (same2 ∙ same1))
            ∙ looked
            ∙ there;
        for_user = owner;
        written = users;
      })
