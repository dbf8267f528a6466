-- ===== src/Oauth/Revoke/Laws.antt =====
-- What a revocation does to the tokens of its client, and leaves of all others.
use orion_auth_backend.Prelude.{
  String, ◌≡◌, ◌≢◌, refl, ◌∙◌, Bool, true, false, not, ◌&&◌, Option, none, some, arith, first,
  first_passes, first-update_where, update_where, update_where-All, All, str_eq, eq_iff, ◌==◌,
  if◌then◌else◌, Option-cases, inl, inr,
}
use orion_auth_backend.Exec.{ok, ◌>>=◌}
use orion_auth_backend.Model.{OauthClient, AccessToken, RefreshToken, State}
use orion_auth_backend.World.{
  find_refresh_token, find_access_token, revoke_refresh_token_family,
  revoke_access_tokens_by_session, revoke_access_token as revoke_one,
}
use orion_auth_backend.Oauth.Service.{Service}
use orion_auth_backend.Oauth.Repository.{
  is_session, revoke_at, revoke_rt, revoke_family, revoke_by_session, revoke_access_token_by_id,
  refresh_token_by_id, access_token_by_id,
}
use orion_auth_backend.Oauth.Issue.{TokenResponse}
use orion_auth_backend.Oauth.Refresh.{exchange_refresh_token}
use orion_auth_backend.Oauth.Refresh.Laws.{id_is, exchange_refresh_token-Rotated}
use orion_auth_backend.Oauth.Refresh.Once.{old_row, new_row}
use orion_auth_backend.Oauth.Scopes.{parse_space_delimited}
use orion_auth_backend.Oauth.Revoke.{
  hints, jwt_claims, revoke_found_refresh, revoke_found_access, revoke_by_hash, revoke_opaque,
  revoke, deny_jwt, revoke_refresh_token, revoke_access_token,
}

abbrev pub access_id_is : String → AccessToken → Bool
access_id_is id t = str_eq t.id id

-- The refresh token that the lookup finds: none when the hint is for another kind or the driver
-- fails.
abbrev pub seen_refresh : (svc : Service) → (token hint : String) → State → Option RefreshToken
seen_refresh svc token hint s =
    if hints "refresh_token" hint && not (svc.breaks find_refresh_token)
    then first (id_is (svc.hash_token token)) s.refresh_tokens
    else none

abbrev pub seen_access : (svc : Service) → (token hint : String) → State → Option AccessToken
seen_access svc token hint s =
    if hints "access_token" hint && not (svc.breaks find_access_token)
    then first (access_id_is (svc.hash_token token)) s.access_tokens
    else none

module _ (svc : Service) (client : OauthClient) (token hint : String) (s : State) where
  -- The opaque part is the revocation of what the lookups find.
  revoke_opaque-eq-refresh :
      (rt : RefreshToken)
      → seen_refresh svc token hint s ≡ some rt
      → revoke_opaque svc client token hint s ≡ revoke_found_refresh svc client rt s
  unfolding revoke_opaque revoke_by_hash refresh_token_by_id ◌>>=◌
  revoke_opaque-eq-refresh rt h = ground arith

  revoke_opaque-eq-access :
      seen_refresh svc token hint s ≡ none
      → revoke_opaque svc client token hint s
        ≡ revoke_found_access svc client (seen_access svc token hint s) s
  unfolding revoke_opaque revoke_by_hash refresh_token_by_id access_token_by_id ◌>>=◌
  revoke_opaque-eq-access h = ground arith

  -- A token that is not tried as a JWT goes to the lookups.
  revoke-eq-opaque :
      token ≢ ""
      → jwt_claims svc.jwt_signer token hint ≡ none
      → revoke svc token hint client s ≡ revoke_opaque svc client token hint s
  unfolding revoke deny_jwt ◌>>=◌
  revoke-eq-opaque h k = ground (arith, eq_iff token "")

  foreign_access :
      (o : Option AccessToken)
      → ((at : AccessToken) → o ≡ some at → at.client_id ≢ client.id)
      → revoke_found_access svc client o s ≡ (ok tt, s)
  unfolding revoke_found_access ◌>>=◌
  foreign_access none other = refl
  foreign_access (some at) other = ground (arith, other at refl)

  foreign_refresh :
      (rt : RefreshToken)
      → rt.client_id ≢ client.id
      → revoke_found_refresh svc client rt s ≡ (ok tt, s)
  unfolding revoke_found_refresh ◌>>=◌
  foreign_refresh rt other = ground arith

  -- A non-empty opaque token that is unknown, or that the lookups find to be of another client, is
  -- answered with success and changes nothing.
  pub revoke_foreign :
      token ≢ ""
      → jwt_claims svc.jwt_signer token hint ≡ none
      → ((rt : RefreshToken) → seen_refresh svc token hint s ≡ some rt → rt.client_id ≢ client.id)
      → ((at : AccessToken) → seen_access svc token hint s ≡ some at → at.client_id ≢ client.id)
      → revoke svc token hint client s ≡ (ok tt, s)
  revoke_foreign given opaque other_rt other_at =
      revoke-eq-opaque given opaque ∙ elim (Option-cases (seen_refresh svc token hint s)) [
        | inl absent ↦
            revoke_opaque-eq-access absent ∙ foreign_access (seen_access svc token hint s) other_at
        | inr (rt, seen) ↦ revoke_opaque-eq-refresh rt seen ∙ foreign_refresh rt (other_rt rt seen)
      ]

  revoke_own_refresh :
      (rt : RefreshToken)
      → rt.client_id ≡ client.id
      → svc.breaks revoke_refresh_token_family ≡ false
      → svc.breaks revoke_access_tokens_by_session ≡ false
      → revoke_found_refresh svc client rt s ≡ (
        ok tt,
        record s {
          db = record s.db {
            refresh_tokens =
                update_where
                  (λ t. t.family_id == rt.family_id && not t.revoked)
                  revoke_rt
                  s.refresh_tokens;
            access_tokens =
                update_where
                  (λ t. is_session rt.session_id t.session_id && not t.revoked)
                  revoke_at
                  s.access_tokens;
          };
        },
      )
  unfolding revoke_found_refresh revoke_refresh_token revoke_family revoke_by_session ◌>>=◌
  revoke_own_refresh rt owned works works' = ground arith

  -- When a client revokes its own refresh token, and the driver fails neither update, every refresh
  -- token of its family and every access token of its session is revoked.
  pub revoke_refresh_ends_family :
      (rt : RefreshToken)
      → token ≢ ""
      → jwt_claims svc.jwt_signer token hint ≡ none
      → seen_refresh svc token hint s ≡ some rt
      → rt.client_id ≡ client.id
      → svc.breaks revoke_refresh_token_family ≡ false
      → svc.breaks revoke_access_tokens_by_session ≡ false
      → (s' : State) × (revoke svc token hint client s ≡ (ok tt, s'))
        × All (λ t. t.family_id ≡ rt.family_id → t.revoked ≡ true) s'.refresh_tokens
        × All (λ t. t.session_id ≡ some rt.session_id → t.revoked ≡ true) s'.access_tokens
  revoke_refresh_ends_family rt given opaque seen owned works works' = (
    _,
    revoke-eq-opaque given opaque
        ∙ revoke_opaque-eq-refresh rt seen
        ∙ revoke_own_refresh rt owned works works',
    update_where-All (λ t. t.family_id ≡ rt.family_id → t.revoked ≡ true)
        (λ t. t.family_id == rt.family_id && not t.revoked) revoke_rt s.refresh_tokens
        (λ t hit p. refl) (λ t miss p. ground arith),
    update_where-All (λ t. t.session_id ≡ some rt.session_id → t.revoked ≡ true)
        (λ t. is_session rt.session_id t.session_id && not t.revoked) revoke_at s.access_tokens
        (λ t hit p. refl) (λ t miss p. ground arith),
  )

  revoke_own_access :
      (o : Option AccessToken) (at : AccessToken)
      → o ≡ some at
      → at.client_id ≡ client.id
      → svc.breaks revoke_one ≡ false
      → revoke_found_access svc client o s ≡ (
        ok tt,
        record s {
          db = record s.db {
            access_tokens = update_where (access_id_is at.id) revoke_at s.access_tokens;
          };
        },
      )
  unfolding revoke_found_access revoke_access_token_by_id revoke_access_token ◌>>=◌
  revoke_own_access o at seen owned works = ground arith

  -- When a client revokes its own access token, and the driver does not fail the update, the row
  -- that the token's hash finds is revoked and otherwise as it was.
  pub revoke_access_lem :
      (at : AccessToken)
      → token ≢ ""
      → jwt_claims svc.jwt_signer token hint ≡ none
      → seen_refresh svc token hint s ≡ none
      → seen_access svc token hint s ≡ some at
      → at.client_id ≡ client.id
      → svc.breaks revoke_one ≡ false
      → (s' : State) × (revoke svc token hint client s ≡ (ok tt, s'))
        × (first (access_id_is (svc.hash_token token)) s'.access_tokens ≡ some (revoke_at at))
  revoke_access_lem at given opaque absent seen owned works = (
    _,
    revoke-eq-opaque given opaque
        ∙ revoke_opaque-eq-access absent
        ∙ revoke_own_access (seen_access svc token hint s) at seen owned works,
    let row : first (access_id_is (svc.hash_token token)) s.access_tokens ≡ some at =
          ground arith in
        first-update_where (access_id_is (svc.hash_token token)) (access_id_is at.id) revoke_at
          s.access_tokens (λ x hit. refl)
        ∙ ground (
          arith,
          first_passes (access_id_is (svc.hash_token token)) s.access_tokens,
          eq_iff at.id (svc.hash_token token),
          eq_iff at.id at.id,
        ),
  )

-- Revoking a refresh token that was exchanged for a new one leaves the new one as it is, when the
-- new one got a family of its own, as a fresh UUID is; the request succeeds.
pub revoke_spares_successor :
    (svc : Service) (client : OauthClient) (token scope hint : String) (s s' : State)
    (resp : TokenResponse) (old new : RefreshToken)
    → token ≢ ""
    → jwt_claims svc.jwt_signer token hint ≡ none
    → hints "refresh_token" hint ≡ true
    → svc.breaks find_refresh_token ≡ false
    → svc.breaks revoke_refresh_token_family ≡ false
    → svc.breaks revoke_access_tokens_by_session ≡ false
    → exchange_refresh_token svc client token scope s ≡ (ok resp, s')
    → first (id_is (svc.hash_token token)) s'.refresh_tokens ≡ some old
    → first (id_is (svc.hash_token resp.refresh_token)) s'.refresh_tokens ≡ some new
    → new.family_id ≢ old.family_id
    → (after : State) × (revoke svc token hint client s' ≡ (ok tt, after))
      × (first (id_is (svc.hash_token resp.refresh_token)) after.refresh_tokens ≡ some new)
      × (new.revoked ≡ false)
revoke_spares_successor svc client token scope hint s s' resp old new given opaque hinted found
      works works' h eo en other =
    let requested = parse_space_delimited scope in
    let one = exchange_refresh_token-Rotated svc client token scope s s' resp h in
    let row = old_row svc client (svc.hash_token token) requested s s' resp one in
    let row' = new_row svc client (svc.hash_token token) requested s s' resp one in
    let owned = one.client_matches in
    let usable = one.issued.usable.1 in
    let p : RefreshToken → Bool = id_is (svc.hash_token resp.refresh_token) in
    let q : RefreshToken → Bool = λ t. t.family_id == old.family_id && not t.revoked in
    (
      _,
      revoke-eq-opaque svc client token hint s' given opaque
          ∙ revoke_opaque-eq-refresh svc client token hint s' old (ground arith)
          ∙ revoke_own_refresh svc client token hint s' old (ground arith) works works',
      first-update_where p q revoke_rt s'.refresh_tokens (λ x hit. refl) ∙ ground arith,
      ground arith,
    )
