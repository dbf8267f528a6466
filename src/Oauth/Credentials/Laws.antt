-- ===== src/Oauth/Credentials/Laws.antt =====
-- The client credentials grant: who gets a token, and what the token may do.
use orion_auth_backend.Prelude.{
  String, ◌≡◌, refl, sym, ap, ◌∙◌, true, false, List, [], ◌∷◌, none, arith, contains, IsSubset,
  IsSubset-refl, str_eq, eq_iff, any,
}
use orion_auth_backend.Errors.{Error, server_error}
use orion_auth_backend.Exec.{ok, ◌>>=◌, bind_ok, fail_if_ok, lift_ok, or_raise}
use orion_auth_backend.Model.{
  OauthClient, AccessToken, State, Database, has_grant_type, has_scope, keep_registered,
  validate_scopes,
}
use orion_auth_backend.Oauth.Scopes.{parse_space_delimited}
use orion_auth_backend.Oauth.Service.{Service}
use orion_auth_backend.Oauth.Repository.{insert_access_token}
use orion_auth_backend.Oauth.Issue.{TokenResponse}
use orion_auth_backend.Oauth.Issue.Laws.{mint_db}
use orion_auth_backend.Oauth.Credentials.{
  Target, resolve_target, credentials_row, exchange_client_credentials,
}

keep_registered_lem :
    (c : OauthClient) (requested : List String) (s : String)
    → contains (keep_registered c requested) s ≡ true
    → contains c.scopes s ≡ true
unfolding keep_registered contains has_scope
keep_registered_lem c [] s h = ground arith
keep_registered_lem c (r ∷ requested) s h =
    ground (arith, keep_registered_lem c requested s, eq_iff r s)

-- ValidateScopes grants nothing that the client is not registered for.
validate_scopes-IsSubset :
    (c : OauthClient) (requested : List String) → IsSubset (validate_scopes c requested) c.scopes
unfolding validate_scopes
validate_scopes-IsSubset c [] = IsSubset-refl c.scopes
validate_scopes-IsSubset c (r ∷ requested) = record {
  at = λ s m. keep_registered_lem c (r ∷ requested) s m;
}

-- A token of the client itself: no user, no session, no refresh token.
pub record Credited (svc : Service) (client : OauthClient) (scope audience : String)
    (before after : State) : Type 0 where
  pub confidential : client.is_public ≡ false
  pub registered : has_grant_type client "client_credentials" ≡ true
  pub target : Target
  pub resolved :
      resolve_target svc.resource_validator client audience (parse_space_delimited scope)
      ≡ ok target
  pub at : AccessToken
  -- the row was added and nothing else was written
  pub tables : after.db ≡ record before.db { access_tokens = at ∷ before.access_tokens }
  pub owner :
      (at.client_id ≡ client.id)
      × (at.user_id ≡ none)
      × (at.session_id ≡ none)
      × (at.refresh_token_id ≡ none)
  pub granted : (at.scopes ≡ target.scopes) × (at.audience ≡ target.audience)
  pub new_key : any (λ t. str_eq t.id at.id) before.access_tokens ≡ false
  -- without a resource the scopes are registered ones
  pub bounded : target.resource ≡ none → IsSubset at.scopes client.scopes

module _ (svc : Service) where
  target_bounded :
      (client : OauthClient) (audience : String) (requested : List String) (t : Target)
      → resolve_target svc.resource_validator client audience requested ≡ ok t
      → t.resource ≡ none
      → IsSubset t.scopes client.scopes
  unfolding resolve_target
  target_bounded client audience requested t h plain =
      let same : validate_scopes client requested ≡ t.scopes = ground arith in
      rw (← same) (validate_scopes-IsSubset client requested)

  insert_ok :
      (e : Error) (row : AccessToken) (s s' : State)
      → or_raise e (insert_access_token svc.world row) s ≡ (ok tt, s')
      → (s'.db ≡ record s.db { access_tokens = row ∷ s.access_tokens })
        × (any (λ t. str_eq t.id row.id) s.access_tokens ≡ false)
  unfolding insert_access_token ◌>>=◌
  insert_ok e row s s' h = (ground arith, ground arith)

  -- When the client credentials grant returns a token, the client is confidential and registered
  -- for the grant, and exactly one access token was stored, under a new key: the client's own, of no
  -- user, session or refresh token, with the scopes and the audience that were resolved; without a
  -- resource those scopes are scopes of the client.
  pub exchange_client_credentials-Credited :
      (client : OauthClient) (scope audience : String) (s s' : State) (resp : TokenResponse)
      → exchange_client_credentials svc client scope audience s ≡ (ok resp, s')
      → Credited svc client scope audience s s'
  unfolding exchange_client_credentials
  exchange_client_credentials-Credited client scope audience s s' resp h =
      let (u, s1, e1, k1) = bind_ok _ _ s h in
      let (v, s2, e2, k2) = bind_ok _ _ s1 k1 in
      let (t, s3, e3, k3) = bind_ok _ _ s2 k2 in
      let (m, s4, e4, k4) = bind_ok _ _ s3 k3 in
      let (w, s5, e5, k5) = bind_ok _ _ s4 k4 in
      let row = credentials_row svc client t m in
      let (resolved, same3) =
        lift_ok
          (resolve_target svc.resource_validator client audience (parse_space_delimited scope)) s2
          e3 in
      let same : s3 ≡ s = same3 ∙ fail_if_ok _ _ s1 e2 ∙ fail_if_ok _ _ s e1 in
      let minted =
        mint_db svc none client.id t.scopes audience t.ttl none t.resource s3 s4 m e4
        ∙ ap (λ (x : State). x.db) same in
      let stored = insert_ok (server_error "failed to store access token") row s4 s5 e5 in
      let last : s5 ≡ s' = unfold ◌>>=◌ in ground arith in
      record {
        confidential = unfold ◌>>=◌ in ground arith;
        registered = unfold ◌>>=◌ in ground arith;
        target = t;
        resolved = resolved;
        at = row;
        tables =
            ap (λ (x : State). x.db) (sym last)
            ∙ stored.0
            ∙ ap (λ (d : Database). record d { access_tokens = row ∷ d.access_tokens }) minted;
        owner = (refl, refl, refl, refl);
        granted = (refl, refl);
        new_key =
            ap (λ (d : Database). any (λ t. str_eq t.id m.id) d.access_tokens) (sym minted)
            ∙ stored.1;
        bounded =
            λ plain. target_bounded client audience (parse_space_delimited scope) t resolved plain;
      }
