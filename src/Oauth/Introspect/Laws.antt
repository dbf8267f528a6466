-- ===== src/Oauth/Introspect/Laws.antt =====
-- What an introspection tells, and that it writes nothing.
use orion_auth_backend.Prelude.{
  ℕ, ◌≤◌, ◌<◌, String, ◌≡◌, ◌≢◌, refl, sym, ap, ◌∙◌, true, false, Option, none, some, arith, str_eq,
  eq_iff, Option-cases, Bool-cases, deref_or, inl, inr, ◌⊎◌,
}
use orion_auth_backend.Exec.{Result, ok, ◌>>=◌}
use orion_auth_backend.Model.{
  OauthClient, AccessToken, RefreshToken, State, access_token_is_valid, was_rotated,
}
use orion_auth_backend.World.{revoke_access_token as revoke_one}
use orion_auth_backend.Oauth.Service.{Service, ValidatedClaims}
use orion_auth_backend.Oauth.Repository.{
  revoke_at, refresh_token_by_id, access_token_by_id, user_by_id,
}
use orion_auth_backend.Oauth.Revoke.{jwt_claims, revoke}
use orion_auth_backend.Oauth.Revoke.Laws.{seen_refresh, seen_access, revoke_access_lem}
use orion_auth_backend.Oauth.Introspect.{
  IntrospectResponse, inactive, denied_by_introspect_policy, username, introspect_access_token,
  introspect_refresh_token, subject_user, introspect_jwt, introspect_by_hash, introspect_token,
}

module _ (svc : Service) (issuer : String) (requester : ℕ) (s : State) where
  username_state : (owner : ℕ) (user : Option ℕ) → (username svc owner requester user s).1 ≡ s
  unfolding username user_by_id ◌>>=◌
  username_state owner none = refl
  username_state owner (some u) = ground arith

  access_state : (at : AccessToken) → (introspect_access_token svc at issuer requester s).1 ≡ s
  unfolding introspect_access_token ◌>>=◌
  access_state at = ground (arith, username_state at.client_id at.user_id)

  jwt_state : (claims : ValidatedClaims) → (introspect_jwt svc claims issuer requester s).1 ≡ s
  unfolding introspect_jwt ◌>>=◌
  jwt_state claims =
      let client = deref_or "" claims.client_id in
      ground (
        arith,
        username_state (deref_or 0 (svc.parse_uuid client)) (subject_user svc client claims.sub),
      )

  by_access :
      (token hint : String) (at : AccessToken)
      → seen_access svc token hint s ≡ some at
      → introspect_by_hash svc (svc.hash_token token) hint issuer requester s
        ≡ introspect_access_token svc at issuer requester s
  unfolding introspect_by_hash access_token_by_id ◌>>=◌
  by_access token hint at h = ground arith

  by_refresh :
      (token hint : String) (rt : RefreshToken)
      → seen_access svc token hint s ≡ none
      → seen_refresh svc token hint s ≡ some rt
      → introspect_by_hash svc (svc.hash_token token) hint issuer requester s
        ≡ (ok (introspect_refresh_token svc rt issuer requester), s)
  unfolding introspect_by_hash access_token_by_id refresh_token_by_id ◌>>=◌
  by_refresh token hint rt h k = ground arith

  by_nothing :
      (token hint : String)
      → seen_access svc token hint s ≡ none
      → seen_refresh svc token hint s ≡ none
      → introspect_by_hash svc (svc.hash_token token) hint issuer requester s ≡ (ok inactive, s)
  unfolding introspect_by_hash access_token_by_id refresh_token_by_id ◌>>=◌
  by_nothing token hint h k = ground arith

  by_hash_state :
      (token hint : String)
      → (introspect_by_hash svc (svc.hash_token token) hint issuer requester s).1 ≡ s
  by_hash_state token hint = elim (Option-cases (seen_access svc token hint s)) [
    | inr (at, seen) ↦
        ap (λ (p : Result IntrospectResponse × State). p.1) (by_access token hint at seen)
        ∙ access_state at
    | inl absent ↦ elim (Option-cases (seen_refresh svc token hint s)) [
      | inr (rt, seen) ↦
          ap (λ (p : Result IntrospectResponse × State). p.1) (by_refresh token hint rt absent seen)
      | inl unknown ↦
          ap (λ (p : Result IntrospectResponse × State). p.1) (by_nothing token hint absent unknown)
    ]
  ]

  introspect_token-eq-jwt :
      (token hint : String) (claims : ValidatedClaims)
      → token ≢ ""
      → jwt_claims svc.jwt_signer token hint ≡ some claims
      → introspect_token svc token hint issuer requester s
        ≡ introspect_jwt svc claims issuer requester s
  unfolding introspect_token ◌>>=◌
  introspect_token-eq-jwt token hint claims h k = ground (arith, eq_iff token "")

  introspect_token-eq-hash :
      (token hint : String)
      → token ≢ ""
      → jwt_claims svc.jwt_signer token hint ≡ none
      → introspect_token svc token hint issuer requester s
        ≡ introspect_by_hash svc (svc.hash_token token) hint issuer requester s
  unfolding introspect_token ◌>>=◌
  introspect_token-eq-hash token hint h k = ground (arith, eq_iff token "")

  -- An introspection changes no table, whatever it answers and whichever queries fail.
  pub introspect_token_reads :
      (token hint : String) → (introspect_token svc token hint issuer requester s).1 ≡ s
  introspect_token_reads token hint = elim (Bool-cases (str_eq token "")) [
    | inl empty ↦ unfold introspect_token ◌>>=◌ in ground arith
    | inr given ↦
        let nonempty : token ≢ "" = λ e. ground (arith, eq_iff token "") in
        elim (Option-cases (jwt_claims svc.jwt_signer token hint)) [
          | inr (claims, some_claims) ↦
              ap (λ (p : Result IntrospectResponse × State). p.1)
                (introspect_token-eq-jwt token hint claims nonempty some_claims)
              ∙ jwt_state claims
          | inl opaque ↦
              ap (λ (p : Result IntrospectResponse × State). p.1)
                (introspect_token-eq-hash token hint nonempty opaque)
              ∙ by_hash_state token hint
        ]
  ]

-- What an active answer says of an access token's row.
pub record IsActiveAccess (svc : Service) (requester : ℕ) (at : AccessToken)
    (r : IntrospectResponse) : Type 0 where
  pub unrevoked : at.revoked ≡ false
  pub live : svc.wall < at.expires_at
  pub passed :
      denied_by_introspect_policy svc "access_token" at.client_id at.user_id at.scopes at.audience
        requester
      ≡ false
  -- the e-mail address is told to the owner only
  pub private : at.client_id ≢ requester → r.username ≡ ""

pub record IsActiveRefresh (svc : Service) (requester : ℕ) (rt : RefreshToken)
    (r : IntrospectResponse) : Type 0 where
  pub unrevoked : rt.revoked ≡ false
  pub unrotated : rt.rotated_at ≡ none
  pub live : svc.now ≤ rt.expires_at
  pub passed :
      denied_by_introspect_policy svc "refresh_token" rt.client_id
        (some rt.user_id)
        rt.scopes
        rt.audience
        requester
      ≡ false
  pub private : r.username ≡ ""

module _ (svc : Service) (issuer : String) (requester : ℕ) (s : State) where
  access_active :
      (at : AccessToken) (r : IntrospectResponse) (s' : State)
      → introspect_access_token svc at issuer requester s ≡ (ok r, s')
      → r.active ≡ true
      → IsActiveAccess svc requester at r
  unfolding introspect_access_token access_token_is_valid username ◌>>=◌
  access_active at r s' h active = record {
    unrevoked = ground arith;
    live = ground arith;
    passed = ground arith;
    private = λ other. ground arith;
  }

  refresh_active :
      (rt : RefreshToken) (r : IntrospectResponse)
      → introspect_refresh_token svc rt issuer requester ≡ r
      → r.active ≡ true
      → IsActiveRefresh svc requester rt r
  unfolding introspect_refresh_token was_rotated
  refresh_active rt r h active = record {
    unrevoked = ground arith;
    unrotated = ground arith;
    live = ground arith;
    passed = ground arith;
    private = ground arith;
  }

  -- When the introspection of an opaque token answers that it is active, then its row is that of an
  -- access token that is not revoked, not expired and not denied by the policy, or, no access token
  -- being found, that of a refresh token that is also not rotated. An e-mail address is shown only
  -- for an access token, and only to the client that owns it.
  pub introspect_token_lem :
      (token hint : String) (r : IntrospectResponse) (s' : State)
      → jwt_claims svc.jwt_signer token hint ≡ none
      → introspect_token svc token hint issuer requester s ≡ (ok r, s')
      → r.active ≡ true
      → ((at : AccessToken) × (seen_access svc token hint s ≡ some at)
          × IsActiveAccess svc requester at r)
        ⊎ ((rt : RefreshToken) × (seen_access svc token hint s ≡ none)
            × (seen_refresh svc token hint s ≡ some rt)
            × IsActiveRefresh svc requester rt r)
  introspect_token_lem token hint r s' opaque h active =
      let given : token ≢ "" =
        λ e. unfold introspect_token ◌>>=◌ in ground (arith, eq_iff token "") in
      let by_hash =
        sym (introspect_token-eq-hash svc issuer requester s token hint given opaque) ∙ h in
      elim (Option-cases (seen_access svc token hint s)) [
        | inr (at, seen) ↦ inl (
          at,
          seen,
          access_active at r s'
              (sym (by_access svc issuer requester s token hint at seen) ∙ by_hash) active,
        )
        | inl absent ↦ elim (Option-cases (seen_refresh svc token hint s)) [
          | inr (rt, seen) ↦
              let told =
                sym (by_refresh svc issuer requester s token hint rt absent seen) ∙ by_hash in
              inr (rt, absent, seen, refresh_active rt r (ground arith) active)
          | inl unknown ↦
              let told =
                sym (by_nothing svc issuer requester s token hint absent unknown) ∙ by_hash in
              absurd (ground arith)
        ]
      ]

  revoked_row :
      (at : AccessToken)
      → at.revoked ≡ true
      → introspect_access_token svc at issuer requester s ≡ (ok inactive, s)
  unfolding introspect_access_token access_token_is_valid ◌>>=◌
  revoked_row at h = ground arith

-- After a client revoked its own opaque access token, its introspection by whichever client says no
-- more than that it is inactive, when no query fails and the update did not.
pub revoked_introspects_inactive :
    (svc : Service) (client : OauthClient) (token hint issuer : String) (requester : ℕ) (s : State)
    (at : AccessToken)
    → token ≢ ""
    → jwt_claims svc.jwt_signer token hint ≡ none
    → seen_refresh svc token hint s ≡ none
    → seen_access svc token hint s ≡ some at
    → at.client_id ≡ client.id
    → svc.breaks revoke_one ≡ false
    → (introspect_token svc token hint issuer requester (revoke svc token hint client s).1).0
      ≡ ok inactive
revoked_introspects_inactive svc client token hint issuer requester s at given opaque absent seen
      owned works =
    let (t, done, row) =
      revoke_access_lem svc client token hint s at given opaque absent seen owned works in
    let after = introspect_token svc token hint issuer requester t in
    let e : (revoke svc token hint client s).1 ≡ t = ap (λ (p : Result Unit × State). p.1) done in
    let seen' : seen_access svc token hint t ≡ some (revoke_at at) = ground arith in
    rw e (
      ap (λ (p : Result IntrospectResponse × State). p.0)
        (introspect_token-eq-hash svc issuer requester t token hint given opaque
          ∙ by_access svc issuer requester t token hint (revoke_at at) seen'
          ∙ revoked_row svc issuer requester t (revoke_at at) refl))
