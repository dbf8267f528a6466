-- ===== src/Oauth/Authorize/Exchange.antt =====
-- From the consent of the user to the tokens: what an exchange of the code that was handed out gives.
use mathlib.Core.Path.{subst}
use orion_auth_backend.Prelude.{
  String, ◌≡◌, refl, sym, ap, ◌∙◌, List, ◌∷◌, some, arith, first, eq_iff, IsSubset, IsSubset-trans,
}
use orion_auth_backend.Exec.{ok}
use orion_auth_backend.Model.{
  OauthClient, AuthorizationCode, AccessToken, RefreshToken, State, Database, AuthorizationRequest,
}
use orion_auth_backend.Oauth.Service.{Service}
use orion_auth_backend.Oauth.Issue.{TokenResponse}
use orion_auth_backend.Oauth.Code.{exchange_authorization_code}
use orion_auth_backend.Oauth.Code.Laws.{hash_is, exchange_authorization_code-Redeemed}
use orion_auth_backend.Oauth.Authorize.{
  AuthorizeConsentInput, AuthorizeConsentResponse, code_row, authorize_consent,
}
use orion_auth_backend.Oauth.Authorize.Laws.{is_request}
use orion_auth_backend.Oauth.Authorize.Consents.{authorize_consent-Consented, consented}

some_injective : {a b : AuthorizationCode} → some a ≡ some b → a ≡ b
some_injective h = ground arith

first_added :
    (hash : String) (row : AuthorizationCode) (rows : List AuthorizationCode)
    → row.code_hash ≡ hash
    → first (hash_is hash) (row ∷ rows) ≡ some row
unfolding first
first_added hash row rows h = ground (arith, eq_iff row.code_hash hash)

-- Tokens that stand for a consent: they are the first rows of the tables, belong to the client, the
-- user and the redirect URI of the consent's request, and carry scopes that the user granted.
pub record WithinConsent (svc : Service) (input : AuthorizeConsentInput) (client : OauthClient)
    (uri : String) (start before after : State) : Type 0 where
  pub req : AuthorizationRequest
  pub row : first (is_request svc.world input.request_id) start.auth_requests ≡ some req
  pub at : AccessToken
  pub rt : RefreshToken
  pub added :
      (after.access_tokens ≡ at ∷ before.access_tokens)
      × (after.refresh_tokens ≡ rt ∷ before.refresh_tokens)
  pub same_client :
      (req.client_id ≡ client.id) × (at.client_id ≡ client.id) × (rt.client_id ≡ client.id)
  pub same_uri : req.redirect_uri ≡ uri
  pub same_user : (req.user_id ≡ some rt.user_id) × (at.user_id ≡ req.user_id)
  pub within : IsSubset at.scopes input.scopes_granted × IsSubset rt.scopes input.scopes_granted

-- The tokens that a code yields when it is exchanged right after the consent that handed it out
-- belong to the client, the user and the redirect URI of the consent's request, and their scopes are
-- among those that the user granted.
pub tokens-WithinConsent :
    (svc : Service) (input : AuthorizeConsentInput) (ip agent : String) (s s' : State)
    (answer : AuthorizeConsentResponse) (client : OauthClient) (uri verifier : String)
    (after : State) (resp : TokenResponse)
    → authorize_consent svc input ip agent s ≡ (ok answer, s')
    → exchange_authorization_code svc client answer.code uri verifier s' ≡ (ok resp, after)
    → WithinConsent svc input client uri s s' after
tokens-WithinConsent svc input ip agent s s' answer client uri verifier after resp h k =
    let one = authorize_consent-Consented svc input ip agent s s' answer h in
    let two =
      exchange_authorization_code-Redeemed svc client answer.code uri verifier s' after resp k in
    let hash = svc.hash_token answer.code in
    let code =
      code_row svc (consented one.req one.granted) one.completed.user one.completed.sess.id hash in
    let same : code ≡ two.code = some_injective (
      sym (
        ap (first (hash_is hash)) one.completed.row
        ∙ first_added hash code one.middle.auth_codes refl)
      ∙ two.row) in
    let issued = two.issued in
    let carried : IsSubset issued.at.scopes one.granted =
      subst (λ (c : AuthorizationCode). IsSubset issued.at.scopes c.scopes) (sym same)
        issued.narrowed in
    let within = IsSubset-trans carried one.allowed in
    let user : one.completed.user ≡ two.code.user_id =
      ap (λ (c : AuthorizationCode). c.user_id) same in
    let (at_client, rt_client, at_user, rt_user) = issued.owner in
    let by_user : one.req.user_id ≡ some issued.rt.user_id =
      one.completed.by_user ∙ ap some (user ∙ sym rt_user) in
    record {
      req = one.req;
      row = one.row;
      at = issued.at;
      rt = issued.rt;
      added = (
        ap (λ (d : Database). d.access_tokens) issued.tables,
        ap (λ (d : Database). d.refresh_tokens) issued.tables,
      );
      same_client = (
        ap (λ (c : AuthorizationCode). c.client_id) same ∙ two.conditions.client_matches,
        at_client,
        rt_client,
      );
      same_uri = ap (λ (c : AuthorizationCode). c.redirect_uri) same ∙ two.conditions.uri_matches;
      same_user = (by_user, at_user ∙ ap some (sym rt_user) ∙ sym by_user);
      within = (
        within,
        subst (λ (xs : List String). IsSubset xs input.scopes_granted) (sym issued.same_scopes)
            within,
      );
    }
