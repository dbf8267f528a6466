-- ===== src/Oauth/Start/Hint.antt =====
-- What an answer to prompt=none rests on, and what it hands out.
use orion_auth_backend.Prelude.{ℕ, ◌≡◌, sym, ap, ◌∙◌, false, ◌∷◌, Option, some, arith}
use orion_auth_backend.Errors.{Error}
use orion_auth_backend.Exec.{ok, or_raise, optional, ◌>>=◌, bind_ok, lift_ok, pure_ok, fail_if_ok}
use orion_auth_backend.Model.{OauthClient, State, AuthorizationRequest, AuthorizationCode, Consent}
use orion_auth_backend.Oauth.Service.{Service}
use orion_auth_backend.Oauth.Repository.Flow.{active_consent, insert_auth_request}
use orion_auth_backend.World.{new_uuid}
use orion_auth_backend.Oauth.Authorize.{code_row}
use orion_auth_backend.Oauth.Authorize.Laws.{complete_authorize-Completed}
use orion_auth_backend.Oauth.Params.{InitAuthorizeParams}
use orion_auth_backend.Oauth.Start.{Granted, InitAuthorizeResponse}
use orion_auth_backend.Oauth.Start.Silent.{identified, handle_prompt_none}

some_inj : {a b : ℕ} → some a ≡ some b → a ≡ b
some_inj h = cc

module _ (svc : Service) where
  -- What a silent authentication by prompt=none rests on, and what it hands out.
  pub record IsSilentGrant (client : OauthClient) (p : InitAuthorizeParams) (g : Granted)
      (s s' : State) (resp : InitAuthorizeResponse) : Type 0 where
    pub user : ℕ
    pub hinted : identified svc.id_token_validator p.id_token_hint ≡ ok user
    pub code : AuthorizationCode
    pub issued : s'.auth_codes ≡ code ∷ s.auth_codes
    pub for_user : code.user_id ≡ user
    pub for_client : code.client_id ≡ client.id
    pub for_scopes : code.scopes ≡ g.scopes
    pub no_screen : (resp.requires_login ≡ false) × (resp.requires_consent ≡ false)

  consent_codes :
      (user client : ℕ) (s s' : State) (o : Option Consent)
      → optional (active_consent svc.world user client) s ≡ (ok o, s')
      → s' ≡ s
  unfolding active_consent ◌>>=◌
  consent_codes user client s s' o h = ground arith

  insert_codes :
      (e : Error) (row stored : AuthorizationRequest) (s s' : State)
      → or_raise e (insert_auth_request svc.world row) s ≡ (ok stored, s')
      → (s'.auth_codes ≡ s.auth_codes)
        × (stored.user_id ≡ row.user_id)
        × (stored.client_id ≡ row.client_id)
        × (stored.scopes ≡ row.scopes)
  unfolding insert_auth_request new_uuid ◌>>=◌
  insert_codes e row stored s s' h = (ground arith, ground arith, ground arith, ground arith)

  -- An answer to prompt=none shows no screen and hands out one code, to the client and for the granted
  -- scopes, in the name of the user that the ID token hint was validated for.
  pub handle_prompt_none-IsSilentGrant :
      (client : OauthClient) (p : InitAuthorizeParams) (g : Granted) (s s' : State)
      (resp : InitAuthorizeResponse)
      → handle_prompt_none svc client p g s ≡ (ok resp, s')
      → IsSilentGrant client p g s s' resp
  unfolding handle_prompt_none
  handle_prompt_none-IsSilentGrant client p g s s' resp h =
      let (user, s1, e1, k1) = bind_ok _ _ s h in
      let (consent, s2, e2, k2) = bind_ok _ _ s1 k1 in
      let (_, s3, e3, k3) = bind_ok _ _ s2 k2 in
      let (stored, s4, e4, k4) = bind_ok _ _ s3 k3 in
      let (redirect, s5, e5, k5) = bind_ok _ _ s4 k4 in
      let (hinted, same1) = lift_ok _ _ e1 in
      let same2 = consent_codes user client.id s1 s2 consent e2 in
      let same3 = fail_if_ok _ _ _ e3 in
      let (codes, by_user, for_client, for_scopes) = insert_codes _ _ stored s3 s4 e4 in
      let done = complete_authorize-Completed svc stored "" "" s4 s5 redirect e5 in
      let (answered, there) = pure_ok _ _ _ _ k5 in
      let code = code_row svc stored done.user done.sess.id (svc.hash_token redirect.code) in
      let unchanged = ap (λ (t : State). t.auth_codes) (same3 ∙ same2 ∙ same1) in
      record {
        user = user;
        hinted = hinted;
        code = code;
        issued =
            ap (λ (t : State). t.auth_codes) (sym there)
            ∙ done.row
            ∙ ap (◌∷◌ code) (codes ∙ unchanged);
        for_user = some_inj (sym done.by_user ∙ by_user);
        for_client = for_client;
        for_scopes = for_scopes;
        no_screen = (
          ap (λ (r : InitAuthorizeResponse). r.requires_login) (sym answered),
          ap (λ (r : InitAuthorizeResponse). r.requires_consent) (sym answered),
        );
      }
