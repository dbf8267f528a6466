-- ===== src/Oauth/Refresh/Laws.antt =====
-- The refresh token grant: what a rotated token satisfied, and what the detection of a reuse leaves
-- behind.
use mathlib.Core.Path.{subst}
use orion_auth_backend.Prelude.{
  ◌≤◌, String, ◌≡◌, sym, ap, ◌∙◌, Bool, false, not, ◌&&◌, List, [], ◌∷◌, Option, none, some, arith,
  first, update_where, str_eq, IsSubset, IsSubset-refl, IsSubset-trans, if◌then◌else◌, ◌==◌,
}
use orion_auth_backend.Errors.{Error, invalid_grant, server_error}
use orion_auth_backend.Exec.{Result, ok, bind_ok, lift_ok, fail_if_ok, found, or_raise, ignore}
use orion_auth_backend.Model.{OauthClient, AccessToken, RefreshToken, State, User, was_rotated}
use orion_auth_backend.World.{find_user, revoke_access_tokens_by_refresh_token}
use orion_auth_backend.Oauth.Scopes.{parse_space_delimited, filter_scopes}
use orion_auth_backend.Oauth.Scopes.Laws.{filter_scopes-IsSubset}
use orion_auth_backend.Oauth.Service.{
  Service, PolicyResult, consult, load_roles, judge_scopes, judge_scopes-IsSubset, refresh,
}
use orion_auth_backend.Oauth.Repository.{
  refresh_token_by_id, rotate, revoke_by_refresh_token, is_text, revoke_at,
}
use orion_auth_backend.Oauth.Repository.Laws.{transaction_ok}
use orion_auth_backend.Oauth.Issue.{TokenResponse}
use orion_auth_backend.Oauth.Issue.Laws.{Issued, issue_tokens-Issued}
use orion_auth_backend.Oauth.Refresh.{
  within_grant, downscope, check_refresh, refresh_policy, refresh_opts, rotate_and_issue,
  exchange_refresh_token,
}

abbrev pub id_is : String → RefreshToken → Bool
id_is id t = str_eq t.id id

module _ (svc : Service) where
  abbrev pub rotated_now : RefreshToken → RefreshToken
  rotated_now t = record t { rotated_at = some svc.wall }

  -- The access tokens of the refresh token are revoked, unless the driver fails that update, which
  -- the code passes over.
  abbrev pub revoked_access : String → State → List AccessToken
  revoked_access id s =
      if svc.breaks revoke_access_tokens_by_refresh_token
      then s.access_tokens
      else update_where (λ t. is_text id t.refresh_token_id && not t.revoked) revoke_at
          s.access_tokens

  -- The tables once the old token is rotated and its access tokens are revoked.
  abbrev pub retired : String → State → State
  retired id s = record s {
    db = record s.db {
      refresh_tokens = update_where (id_is id) rotated_now s.refresh_tokens;
      access_tokens = revoked_access id s;
    };
  }

  check_refresh_ok :
      (client : OauthClient) (rt : RefreshToken) (s s' : State)
      → check_refresh svc client rt s ≡ (ok tt, s')
      → (s' ≡ s)
        × (rt.client_id ≡ client.id)
        × (svc.now ≤ rt.expires_at)
        × (rt.revoked ≡ false)
        × (was_rotated rt ≡ false)
  unfolding check_refresh
  check_refresh_ok client rt s s' h =
      (ground arith, ground arith, ground arith, ground arith, ground arith)

  find_refresh_ok :
      (id : String) (e : Error) (s s' : State) (rt : RefreshToken)
      → found e (refresh_token_by_id svc.world id) s ≡ (ok rt, s')
      → (first (id_is id) s.refresh_tokens ≡ some rt) × (s' ≡ s)
  unfolding refresh_token_by_id
  find_refresh_ok id e s s' rt h = (ground arith, ground arith)

  rotate_ok :
      (id : String) (e : Error) (s s' : State)
      → or_raise e (rotate svc.world id) s ≡ (ok tt, s')
      → s' ≡ record s {
        db = record s.db { refresh_tokens = update_where (id_is id) rotated_now s.refresh_tokens };
      }
  unfolding rotate
  rotate_ok id e s s' h = ground arith

  revoke_linked_ok :
      (id : String) (s s' : State) (u : Unit {0})
      → ignore (revoke_by_refresh_token svc.world id) s ≡ (ok u, s')
      → s' ≡ record s { db = record s.db { access_tokens = revoked_access id s } }
  unfolding revoke_by_refresh_token
  revoke_linked_ok id s s' u h = ground arith

  abbrev refresh_verdict :
      OauthClient → RefreshToken → List String → List String → State → Option PolicyResult
  refresh_verdict client rt requested granted s =
      let (roles, perms) = load_roles svc.role_provider rt.user_id in
      let u : Option User =
        if svc.breaks find_user then none else first (λ u. u.id == rt.user_id) s.users in
      consult svc.policy_evaluator (refresh u client roles perms requested granted rt.session_id)

  refresh_policy-eq-judge :
      (client : OauthClient) (rt : RefreshToken) (requested granted : List String) (s : State)
      → refresh_policy svc client rt requested granted s
        ≡ (judge_scopes granted (refresh_verdict client rt requested granted s), s)
  unfolding refresh_policy consult judge_scopes
  refresh_policy-eq-judge client rt requested granted s = ground arith

  refresh_policy_ok :
      (client : OauthClient) (rt : RefreshToken) (requested granted scopes : List String)
      (s s' : State)
      → refresh_policy svc client rt requested granted s ≡ (ok scopes, s')
      → (s' ≡ s) × IsSubset scopes granted
  refresh_policy_ok client rt requested granted scopes s s' h =
      let e : Path (Result (List String) × State)
          (judge_scopes granted (refresh_verdict client rt requested granted s), s)
          (ok scopes, s') =
        sym (refresh_policy-eq-judge client rt requested granted s) ∙ h in
      (
        ap (λ (p : Result (List String) × State). p.1) (sym e),
        judge_scopes-IsSubset granted (refresh_verdict client rt requested granted s) scopes
            (ap (λ (p : Result (List String) × State). p.0) e),
      )

-- A request that names scopes is a bound on the new scopes; an empty one is none.
abbrev pub IsWithin : List String → List String → Type 0
IsWithin scopes [] = Unit {0}
IsWithin scopes (r ∷ requested) = IsSubset scopes (r ∷ requested)

within_grant_ok : (found granted : List String) → within_grant found ≡ ok granted → found ≡ granted
within_grant_ok [] granted h = ground arith
within_grant_ok (x ∷ found) granted h = ground arith

downscope_ok :
    (requested held granted : List String)
    → downscope requested held ≡ ok granted
    → IsSubset granted held × IsWithin granted requested
downscope_ok [] held granted h =
    let same : held ≡ granted = ground arith in (rw (← same) (IsSubset-refl held), tt)
downscope_ok (r ∷ requested) held granted h =
    let same = within_grant_ok (filter_scopes (r ∷ requested) held) granted h in
    let both = filter_scopes-IsSubset (r ∷ requested) held in
    (rw (← same) both.1, rw (← same) both.0)

IsWithin-trans :
    (scopes granted requested : List String)
    → IsSubset scopes granted
    → IsWithin granted requested
    → IsWithin scopes requested
IsWithin-trans scopes granted [] h k = tt
IsWithin-trans scopes granted (r ∷ requested) h k = IsSubset-trans h k

-- A rotated refresh token: its row, the conditions that it met, the scopes that were left, and the
-- tokens issued after it was retired.
pub record Rotated (svc : Service) (client : OauthClient) (id : String) (requested : List String)
    (before after : State) (resp : TokenResponse) : Type 0 where
  pub token : RefreshToken
  pub row : first (id_is id) before.refresh_tokens ≡ some token
  pub client_matches : token.client_id ≡ client.id
  pub live : svc.now ≤ token.expires_at
  pub unrevoked : token.revoked ≡ false
  pub unrotated : was_rotated token ≡ false
  pub scopes : List String
  pub held : IsSubset scopes token.scopes
  pub within : IsWithin scopes requested
  pub issued :
      Issued svc client token.user_id
        (some token.session_id)
        scopes
        (retired svc id before)
        after
        resp

rotate_and_issue-Rotated :
    (svc : Service) (client : OauthClient) (id : String) (requested : List String) (s s' : State)
    (resp : TokenResponse)
    → rotate_and_issue svc client id requested s ≡ (ok resp, s')
    → Rotated svc client id requested s s' resp
unfolding rotate_and_issue
rotate_and_issue-Rotated svc client id requested s s' resp h =
    let (rt, s1, e1, k1) = bind_ok _ _ s h in
    let (u, s2, e2, k2) = bind_ok _ _ s1 k1 in
    let (granted, s3, e3, k3) = bind_ok _ _ s2 k2 in
    let (scopes, s4, e4, k4) = bind_ok _ _ s3 k3 in
    let (v, s5, e5, k5) = bind_ok _ _ s4 k4 in
    let (x, s6, e6, k6) = bind_ok _ _ s5 k5 in
    let (row, same1) = find_refresh_ok svc id (invalid_grant "invalid refresh token") s s1 rt e1 in
    let (same2, owned, live, unrevoked, unrotated) = check_refresh_ok svc client rt s1 s2 e2 in
    let (asked, same3) = lift_ok (downscope requested rt.scopes) s2 e3 in
    let (held, within) = downscope_ok requested rt.scopes granted asked in
    let (same4, narrowed) = refresh_policy_ok svc client rt requested granted scopes s3 s4 e4 in
    let same5 = rotate_ok svc id (server_error "failed to rotate refresh token") s4 s5 e5 in
    let same6 = revoke_linked_ok svc id s5 s6 x e6 in
    let start : s6 ≡ retired svc id s =
      same6
      ∙ ap
          (λ (t : State). record t { db = record t.db { access_tokens = revoked_access svc id t } })
          same5
      ∙ ap (retired svc id) (same4 ∙ same3 ∙ same2 ∙ same1) in
    record {
      token = rt;
      row = row;
      client_matches = owned;
      live = live;
      unrevoked = unrevoked;
      unrotated = unrotated;
      scopes = scopes;
      held = IsSubset-trans narrowed held;
      within = IsWithin-trans scopes granted requested narrowed within;
      issued =
          subst (λ t. Issued svc client rt.user_id (some rt.session_id) scopes t s' resp) start
            (issue_tokens-Issued svc client rt.user_id (some rt.session_id) scopes
              (refresh_opts svc rt) s6 s' resp k6);
    }

module _ (svc : Service) (client : OauthClient) (token scope : String) where
  -- the grant check in front of the transaction
  exchange_inner :
      (s s' : State) (resp : TokenResponse)
      → exchange_refresh_token svc client token scope s ≡ (ok resp, s')
      → rotate_and_issue svc client (svc.hash_token token) (parse_space_delimited scope) s
        ≡ (ok resp, s')
  unfolding exchange_refresh_token
  exchange_inner s s' resp h =
      let (u, s1, e1, k1) = bind_ok _ _ s h in
      let same : s1 ≡ s = fail_if_ok _ _ s e1 in
      transaction_ok svc.world
        (rotate_and_issue svc client (svc.hash_token token) (parse_space_delimited scope)) s s' resp
        (rw same at k1)

  -- When a refresh token is exchanged for tokens, its row was in the table for this client, not
  -- expired, not revoked and not rotated; the new scopes lie in its scopes and, when the request
  -- names scopes, in those; and the new tokens were stored after the old one was rotated and its
  -- access tokens were revoked, unless the driver fails that last update.
  pub exchange_refresh_token-Rotated :
      (s s' : State) (resp : TokenResponse)
      → exchange_refresh_token svc client token scope s ≡ (ok resp, s')
      → Rotated svc client (svc.hash_token token) (parse_space_delimited scope) s s' resp
  exchange_refresh_token-Rotated s s' resp h =
      rotate_and_issue-Rotated svc client (svc.hash_token token) (parse_space_delimited scope) s s'
        resp (exchange_inner s s' resp h)
