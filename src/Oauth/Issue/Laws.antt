-- ===== src/Oauth/Issue/Laws.antt =====
-- What a successful issuance stored: two linked rows, with scopes that the caller had.
use orion_auth_backend.Prelude.{
  ◌+◌, ◌≤◌, String, ◌≡◌, refl, sym, ap, ◌∙◌, false, List, [], ◌∷◌, Option, none, some, arith, any,
  str_eq, deref_or, IsSubset, IsSubset-refl, IsSubset-trans, Option-cases, ℕ, first, if◌then◌else◌,
  ◌==◌, inl, inr,
}
use orion_auth_backend.Exec.{Result, ok, err, bind_ok}
use orion_auth_backend.Model.{
  OauthClient, ApiResource, AccessToken, RefreshToken, State, Database, User, ResourcePermission,
}
use orion_auth_backend.World.{find_user}
use orion_auth_backend.Oauth.Scopes.{split_resource_scopes}
use orion_auth_backend.Oauth.Scopes.Laws.{split_resource_scopes_lem, contains-union_scopes}
use orion_auth_backend.Oauth.Modify.{Fields, read_modify_scopes, read_modify_scopes-IsSubset}
use orion_auth_backend.Oauth.Service.{
  Service, PolicyResult, ResourceValidator, modifications, load_roles, consult, token_issuance,
}
use orion_auth_backend.Oauth.Issue.{
  TokenResponse, IssueOpts, Grant, Minted, judge, keep_or, narrow_by, issuance_grant,
  resolve_resource, user_scopes, access_ttl, mint, refresh_row, access_row, store_tokens,
  issue_tokens, modified_grant, narrow_group, plain_grant,
}

module _ (client : OauthClient) (scopes : List String) where
  narrowed_scopes : (modify : Fields) → IsSubset (modified_grant client scopes modify).scopes scopes
  narrowed_scopes modify = elim (Option-cases (read_modify_scopes modify scopes)) [
    | inl absent ↦ rw absent (IsSubset-refl scopes)
    | inr (n, given) ↦ rw given (read_modify_scopes-IsSubset modify scopes n given)
  ]

  judge-IsSubset :
      (verdict : Option PolicyResult) (g : Grant)
      → judge client scopes verdict ≡ ok g
      → IsSubset g.scopes scopes
  judge-IsSubset none g h =
      let same : plain_grant client scopes ≡ g = ground arith in rw (← same) (IsSubset-refl scopes)
  judge-IsSubset (some r) g h =
      let same : modified_grant client scopes (modifications r) ≡ g = ground arith in
      rw (← same) (narrowed_scopes (modifications r))

module _ (svc : Service) where
  -- The user that the policy sees, nil when the query fails.
  abbrev seen_user : ℕ → State → Option User
  seen_user user s = if svc.breaks find_user then none else first (λ u. u.id == user) s.users

  -- The verdict on an issuance, none without an evaluator or when it fails.
  abbrev issuance_verdict : OauthClient → ℕ → List String → State → Option PolicyResult
  issuance_verdict client user scopes s =
      let (roles, perms) = load_roles svc.role_provider user in
      consult svc.policy_evaluator (token_issuance client (seen_user user s) roles perms scopes)

  -- The policy step writes nothing, and is the judgement of the verdict.
  issuance_grant-eq-judge :
      (client : OauthClient) (user : ℕ) (scopes : List String) (s : State)
      → issuance_grant svc client user scopes s
        ≡ (judge client scopes (issuance_verdict client user scopes s), s)
  unfolding issuance_grant consult
  issuance_grant-eq-judge client user scopes s = ground arith

  issuance_grant_lem :
      (client : OauthClient) (user : ℕ) (scopes : List String) (s s' : State) (g : Grant)
      → issuance_grant svc client user scopes s ≡ (ok g, s')
      → (s' ≡ s) × IsSubset g.scopes scopes
  issuance_grant_lem client user scopes s s' g h =
      let e : Path (Result Grant × State)
          (judge client scopes (issuance_verdict client user scopes s), s) (ok g, s') =
        sym (issuance_grant-eq-judge client user scopes s) ∙ h in
      (
        ap (λ (p : Result Grant × State). p.1) (sym e),
        judge-IsSubset client scopes (issuance_verdict client user scopes s) g
            (ap (λ (p : Result Grant × State). p.0) e),
      )

  keep_or-IsSubset :
      (scopes other : List String) (r : Result (List String))
      → IsSubset other scopes
      → ((allowed : List String) → r ≡ ok allowed → IsSubset allowed scopes)
      → IsSubset (keep_or scopes other r) scopes
  keep_or-IsSubset scopes other (err _) ho ha = IsSubset-refl scopes
  keep_or-IsSubset scopes other (ok allowed) ho ha =
      let hr = ha allowed refl in
      record { at = λ s m. ground (arith, contains-union_scopes other allowed s, ho.at s, hr.at s) }

  narrow_group-IsSubset :
      (v : ResourceValidator) (resource user : ℕ) (scopes other group : List String)
      → IsSubset other scopes
      → IsSubset group scopes
      → IsSubset (narrow_group v resource user scopes other group) scopes
  narrow_group-IsSubset v resource user scopes other [] ho hg = IsSubset-refl scopes
  narrow_group-IsSubset v resource user scopes other (r ∷ rs) ho hg =
      keep_or-IsSubset scopes other (v.validate_user_scopes user resource (r ∷ rs)) ho
        (λ allowed e. IsSubset-trans (v.user_scopes_narrow user resource (r ∷ rs) allowed e) hg)

  split-IsSubset :
      (scopes : List String) (perms : List ResourcePermission)
      → IsSubset (split_resource_scopes scopes perms).0 scopes
        × IsSubset (split_resource_scopes scopes perms).1 scopes
  split-IsSubset scopes perms = (
    record { at = λ s m. ground (arith, (split_resource_scopes_lem scopes perms s).0) },
    record { at = λ s m. ground (arith, (split_resource_scopes_lem scopes perms s).1) },
  )

  narrow_by-IsSubset :
      (v : ResourceValidator) (res : ApiResource) (user : ℕ) (scopes : List String)
      → IsSubset (narrow_by v res user scopes) scopes
  narrow_by-IsSubset v res user scopes =
      let (hr, ho) = split-IsSubset scopes res.permissions in
      narrow_group-IsSubset v res.id user scopes (split_resource_scopes scopes res.permissions).1
        (split_resource_scopes scopes res.permissions).0 ho hr

  -- RBAC narrows the scopes and adds none.
  pub user_scopes-IsSubset :
      (user : ℕ) (resource : Option ApiResource) (scopes : List String)
      → IsSubset (user_scopes svc user resource scopes) scopes
  unfolding user_scopes
  user_scopes-IsSubset user resource scopes = elim (Option-cases svc.resource_validator) [
    | inl absent ↦
        let e : user_scopes svc user resource scopes ≡ scopes = ground arith in
        rw e (IsSubset-refl scopes)
    | inr (v, given) ↦ elim (Option-cases resource) [
      | inl nil_resource ↦
          let e : user_scopes svc user resource scopes ≡ scopes = ground arith in
          rw e (IsSubset-refl scopes)
      | inr (res, found) ↦
          let e : user_scopes svc user resource scopes ≡ narrow_by v res user scopes =
            ground arith in
          rw e (narrow_by-IsSubset v res user scopes)
    ]
  ]

  -- Minting draws from the generator and writes no table.
  pub mint_db :
      (user : Option ℕ) (client : ℕ) (scopes : List String) (audience : String) (ttl : ℕ)
      (extra : Option Fields) (resource : Option ApiResource) (s s' : State) (m : Minted)
      → mint svc user client scopes audience ttl extra resource s ≡ (ok m, s')
      → s'.db ≡ s.db
  unfolding mint
  mint_db user client scopes audience ttl extra resource s s' m h = ground arith

  mint_draws :
      (user : Option ℕ) (client : ℕ) (scopes : List String) (audience : String) (ttl : ℕ)
      (extra : Option Fields) (resource : Option ApiResource) (s s' : State) (m : Minted)
      → mint svc user client scopes audience ttl extra resource s ≡ (ok m, s')
      → s.draws ≤ s'.draws
  unfolding mint
  mint_draws user client scopes audience ttl extra resource s s' m h = ground arith

  store_tokens_lem :
      (client : OauthClient) (user : ℕ) (sid : Option ℕ) (g : Grant) (scopes : List String)
      (ttl : ℕ) (opts : IssueOpts) (m : Minted) (s s' : State) (resp : TokenResponse)
      → store_tokens svc client user sid g scopes ttl opts m s ≡ (ok resp, s')
      → (sid ≡ some (deref_or 0 sid))
        × (s'.db ≡ record s.db {
          refresh_tokens =
              refresh_row svc client user
                (deref_or 0 sid)
                g
                scopes
                opts
                (svc.hash_token resp.refresh_token)
                (deref_or 0 (svc.uuid (s.draws + 1)))
              ∷ s.refresh_tokens;
          access_tokens =
              access_row svc client user
                (deref_or 0 sid)
                ttl
                scopes
                opts
                (svc.hash_token resp.refresh_token)
                m
              ∷ s.access_tokens;
        })
        × (any (λ t. str_eq t.id (svc.hash_token resp.refresh_token)) s.refresh_tokens ≡ false)
        × (s.draws + 2 ≤ s'.draws)
  unfolding store_tokens
  store_tokens_lem client user sid g scopes ttl opts m s s' resp h = ground arith

-- A pair of rows that one issuance stored for a user and a session, before all others.
pub record Issued (svc : Service) (client : OauthClient) (user : ℕ) (sid : Option ℕ)
    (requested : List String) (before after : State) (resp : TokenResponse) : Type 0 where
  pub session : ℕ
  pub at : AccessToken
  pub rt : RefreshToken
  -- the session was not nil
  pub given : sid ≡ some session
  -- the two rows were added and nothing else was written
  pub tables : after.db ≡ record before.db {
    refresh_tokens = rt ∷ before.refresh_tokens;
    access_tokens = at ∷ before.access_tokens;
  }
  pub owner :
      (at.client_id ≡ client.id)
      × (rt.client_id ≡ client.id)
      × (at.user_id ≡ some user)
      × (rt.user_id ≡ user)
  pub bound : (at.session_id ≡ some session) × (rt.session_id ≡ session)
  pub linked : at.refresh_token_id ≡ some rt.id
  pub hashed : (rt.id ≡ svc.hash_token resp.refresh_token)
  pub new_key : any (λ t. str_eq t.id rt.id) before.refresh_tokens ≡ false
  pub usable : (at.revoked ≡ false) × (rt.revoked ≡ false) × (rt.rotated_at ≡ none)
  -- the refresh token has no parent; its family is the UUID of a draw that the issuance made, or the
  -- nil UUID where the generator failed, an error that the code passes over
  pub draw : ℕ
  pub drawn : (before.draws ≤ draw) × (draw + 1 ≤ after.draws)
  pub family : (rt.family_id ≡ deref_or 0 (svc.uuid draw)) × (rt.parent_id ≡ none)
  -- both carry the same scopes, none of which is new
  pub same_scopes : rt.scopes ≡ at.scopes
  pub narrowed : IsSubset at.scopes requested

-- A successful issuance adds one access token and one refresh token, whose key is new, and writes
-- nothing else: both of the client, the user and the session, which is not nil, linked to each other,
-- unrevoked, and with the same scopes, all of them among those asked for. The refresh token has no
-- parent, and its family is the UUID of a draw that this issuance made, or the nil UUID where the
-- generator failed on that draw.
pub issue_tokens-Issued :
    (svc : Service) (client : OauthClient) (user : ℕ) (sid : Option ℕ) (requested : List String)
    (opts : IssueOpts) (s s' : State) (resp : TokenResponse)
    → issue_tokens svc client user sid requested opts s ≡ (ok resp, s')
    → Issued svc client user sid requested s s' resp
unfolding issue_tokens
issue_tokens-Issued svc client user sid requested opts s s' resp h =
    let (g, s1, eg, k1) = bind_ok (issuance_grant svc client user requested) _ s h in
    let (m, s2, em, k2) = bind_ok _ _ s1 k1 in
    let resource = resolve_resource svc opts.audience in
    let scopes = user_scopes svc user resource g.scopes in
    let ttl = access_ttl svc g resource in
    let (unchanged, granted) = issuance_grant_lem svc client user requested s s1 g eg in
    let minted =
      mint_db svc (some user) client.id scopes _ ttl g.extra_claims resource s1 s2 m em in
    let (given, tables, unseen, moved) =
      store_tokens_lem svc client user sid g scopes ttl opts m s2 s' resp k2 in
    let more =
      mint_draws svc (some user) client.id scopes _ ttl g.extra_claims resource s1 s2 m em in
    let same_draws = ap (λ (t : State). t.draws) unchanged in
    let session : ℕ = deref_or 0 sid in
    let rt_id = svc.hash_token resp.refresh_token in
    let rt : RefreshToken =
      refresh_row svc client user session g scopes opts rt_id
        (deref_or 0 (svc.uuid (s2.draws + 1))) in
    let at : AccessToken = access_row svc client user session ttl scopes opts rt_id m in
    record {
      session = session;
      at = at;
      rt = rt;
      given = given;
      tables =
          tables
          ∙ ap
              (λ (d : Database). record d {
                refresh_tokens = rt ∷ d.refresh_tokens;
                access_tokens = at ∷ d.access_tokens;
              })
              (minted ∙ ap (λ (t : State). t.db) unchanged);
      owner = (refl, refl, refl, refl);
      bound = (refl, refl);
      linked = refl;
      hashed = refl;
      new_key = rw (← (minted ∙ ap (λ (t : State). t.db) unchanged)) unseen;
      usable = (refl, refl, refl);
      draw = s2.draws + 1;
      drawn = (omega arith, omega arith);
      family = (refl, refl);
      same_scopes = refl;
      narrowed = IsSubset-trans (user_scopes-IsSubset svc user resource g.scopes) granted;
    }
