-- ===== src/Oauth/Code/Laws.antt =====
-- The authorization code grant: what a redeemed code satisfied, and that it is redeemed once.
use mathlib.Core.Path.{subst}
use orion_auth_backend.Prelude.{
  ◌<◌, String, ◌≡◌, ◌≢◌, refl, ap, ◌∙◌, Bool, true, false, some, arith, first, first_passes,
  update_where, first-update_where, str_eq, eq_iff, deref_or,
}
use orion_auth_backend.Errors.{Error, invalid_grant, server_error}
use orion_auth_backend.Exec.{Result, ok, err, ◌>>=◌, bind_ok, found, or_raise}
use orion_auth_backend.Model.{OauthClient, AuthorizationCode, State, Database, has_pkce}
use orion_auth_backend.World.{find_auth_code}
use orion_auth_backend.Oauth.Service.{Service}
use orion_auth_backend.Oauth.Repository.{auth_code_by_hash, mark_used}
use orion_auth_backend.Oauth.Repository.Laws.{transaction_ok, transaction_err}
use orion_auth_backend.Oauth.Issue.{TokenResponse}
use orion_auth_backend.Oauth.Issue.Laws.{Issued, issue_tokens-Issued}
use orion_auth_backend.Oauth.Code.{
  check_pkce, check_code, redeem_code, exchange_authorization_code, code_opts,
}

abbrev pub hash_is : String → AuthorizationCode → Bool
hash_is hash c = str_eq c.code_hash hash

-- The tables once the code is marked as used.
abbrev pub marked : String → State → State
marked hash s = record s {
  db = record s.db {
    auth_codes = update_where (hash_is hash) (λ c. record c { used = true }) s.auth_codes;
  };
}

-- What the checks demand of the row, the client and the request.
pub record IsRedeemable (svc : Service) (client : OauthClient) (c : AuthorizationCode)
    (redirect_uri verifier : String) : Type 0 where
  pub unused : c.used ≡ false
  pub live : svc.wall < c.expires_at
  pub client_matches : c.client_id ≡ client.id
  pub uri_matches : c.redirect_uri ≡ redirect_uri
  pub pkce_holds : (has_pkce c ≡ true) → svc.s256 verifier ≡ deref_or "" c.code_challenge
  pub public_has_pkce : (has_pkce c ≡ false) → client.is_public ≡ false

module _ (svc : Service) where
  check_pkce_ok :
      (client : OauthClient) (c : AuthorizationCode) (verifier : String) (s s' : State)
      → check_pkce svc client c verifier s ≡ (ok tt, s')
      → (s' ≡ s)
        × (has_pkce c ≡ true → svc.s256 verifier ≡ deref_or "" c.code_challenge)
        × (has_pkce c ≡ false → client.is_public ≡ false)
  unfolding check_pkce
  check_pkce_ok client c verifier s s' h = (
    ground arith,
    λ p. ground (arith, eq_iff (svc.s256 verifier) (deref_or "" c.code_challenge)),
    λ p. ground arith,
  )

  check_code_ok :
      (client : OauthClient) (c : AuthorizationCode) (redirect_uri verifier : String) (s s' : State)
      → check_code svc client c redirect_uri verifier s ≡ (ok tt, s')
      → (s' ≡ s) × IsRedeemable svc client c redirect_uri verifier
  unfolding check_code
  check_code_ok client c redirect_uri verifier s s' h = (
    ground arith,
    record {
      unused = ground arith;
      live = ground arith;
      client_matches = ground arith;
      uri_matches = ground (arith, eq_iff c.redirect_uri redirect_uri);
      pkce_holds = λ p. ground (arith, eq_iff (svc.s256 verifier) (deref_or "" c.code_challenge));
      public_has_pkce = λ p. ground arith;
    },
  )

  find_code_ok :
      (hash : String) (e : Error) (s s' : State) (c : AuthorizationCode)
      → found e (auth_code_by_hash svc.world hash) s ≡ (ok c, s')
      → (first (hash_is hash) s.auth_codes ≡ some c) × (s' ≡ s)
  unfolding auth_code_by_hash
  find_code_ok hash e s s' c h = (ground arith, ground arith)

  mark_used_ok :
      (hash : String) (e : Error) (s s' : State)
      → or_raise e (mark_used svc.world hash) s ≡ (ok tt, s')
      → s' ≡ marked hash s
  unfolding mark_used
  mark_used_ok hash e s s' h = ground arith

-- A redeemed code: its row, the conditions that it met, and the tokens issued after it was marked.
pub record Redeemed (svc : Service) (client : OauthClient) (hash redirect_uri verifier : String)
    (before after : State) (resp : TokenResponse) : Type 0 where
  pub code : AuthorizationCode
  pub row : first (hash_is hash) before.auth_codes ≡ some code
  pub conditions : IsRedeemable svc client code redirect_uri verifier
  pub issued :
      Issued svc client code.user_id code.session_id code.scopes (marked hash before) after resp

redeem_code-Redeemed :
    (svc : Service) (client : OauthClient) (hash redirect_uri verifier : String) (s s' : State)
    (resp : TokenResponse)
    → redeem_code svc client hash redirect_uri verifier s ≡ (ok resp, s')
    → Redeemed svc client hash redirect_uri verifier s s' resp
unfolding redeem_code
redeem_code-Redeemed svc client hash redirect_uri verifier s s' resp h =
    let (c, s1, e1, k1) = bind_ok _ _ s h in
    let (u, s2, e2, k2) = bind_ok _ _ s1 k1 in
    let (v, s3, e3, k3) = bind_ok _ _ s2 k2 in
    let (row, same1) =
      find_code_ok svc hash (invalid_grant "invalid authorization code") s s1 c e1 in
    let (same2, conditions) = check_code_ok svc client c redirect_uri verifier s1 s2 e2 in
    let same3 =
      mark_used_ok svc hash (server_error "failed to consume authorization code") s2 s3 e3 in
    let start : s3 ≡ marked hash s = same3 ∙ ap (marked hash) (same2 ∙ same1) in
    record {
      code = c;
      row = row;
      conditions = conditions;
      issued =
          subst (λ t. Issued svc client c.user_id c.session_id c.scopes t s' resp) start
            (issue_tokens-Issued svc client c.user_id c.session_id c.scopes (code_opts c) s3 s' resp
              k3);
    }

-- When the exchange of an authorization code returns tokens, the code was in the table, unused
-- and not expired, was issued to this client for this redirect URI, its PKCE challenge was met
-- (a public client's code has one), and the tokens for its user, session and scopes were stored
-- after it was marked as used.
pub exchange_authorization_code-Redeemed :
    (svc : Service) (client : OauthClient) (code redirect_uri verifier : String) (s s' : State)
    (resp : TokenResponse)
    → exchange_authorization_code svc client code redirect_uri verifier s ≡ (ok resp, s')
    → Redeemed svc client (svc.hash_token code) redirect_uri verifier s s' resp
unfolding exchange_authorization_code
exchange_authorization_code-Redeemed svc client code redirect_uri verifier s s' resp h =
    redeem_code-Redeemed svc client (svc.hash_token code) redirect_uri verifier s s' resp (
      transaction_ok svc.world (redeem_code svc client (svc.hash_token code) redirect_uri verifier)
        s s' resp h)

-- An exchange that returns an error leaves every table as it was.
pub exchange_authorization_code-atomic :
    (svc : Service) (client : OauthClient) (code redirect_uri verifier : String) (s s' : State)
    (e : Error)
    → exchange_authorization_code svc client code redirect_uri verifier s ≡ (err e, s')
    → s'.db ≡ s.db
unfolding exchange_authorization_code
exchange_authorization_code-atomic svc client code redirect_uri verifier s s' e h =
    transaction_err svc.world (redeem_code svc client (svc.hash_token code) redirect_uri verifier) s
      s' e h

-- The row of a code that was redeemed is used, whichever rows the table holds.
marked_row :
    (hash : String) (s : State) (c : AuthorizationCode)
    → first (hash_is hash) s.auth_codes ≡ some c
    → first (hash_is hash) (marked hash s).auth_codes ≡ some (record c { used = true })
marked_row hash s c h =
    first-update_where (hash_is hash) (hash_is hash) (λ c. record c { used = true }) s.auth_codes
      (λ x hit. refl)
    ∙ ground (arith, first_passes (hash_is hash) s.auth_codes)

-- A code whose row is used is refused as expired or used, and the refusal changes no table: no
-- token of its session is revoked.
pub used_code_rejected :
    (svc : Service) (client : OauthClient) (code redirect_uri verifier : String) (s : State)
    (c : AuthorizationCode)
    → svc.breaks find_auth_code ≡ false
    → first (hash_is (svc.hash_token code)) s.auth_codes ≡ some c
    → c.used ≡ true
    → (exchange_authorization_code svc client code redirect_uri verifier s).0
        ≡ err (invalid_grant "authorization code expired or already used")
      × ((exchange_authorization_code svc client code redirect_uri verifier s).1.db ≡ s.db)
unfolding exchange_authorization_code redeem_code auth_code_by_hash check_code ◌>>=◌
used_code_rejected svc client code redirect_uri verifier s c works h used =
    ground (arith, svc.rolls_back s.db s.db)

-- After a successful exchange no later exchange of the same code returns tokens, by whichever
-- client, redirect URI and verifier, while the tables stay as the first one left them.
pub code_redeemed_once :
    (svc : Service) (client later : OauthClient) (code uri verifier uri' verifier' : String)
    (s s' : State) (resp again : TokenResponse)
    → exchange_authorization_code svc client code uri verifier s ≡ (ok resp, s')
    → (exchange_authorization_code svc later code uri' verifier' s').0 ≢ ok again
code_redeemed_once svc client later code uri verifier uri' verifier' s s' resp again h k =
    let hash = svc.hash_token code in
    let one = exchange_authorization_code-Redeemed svc client code uri verifier s s' resp h in
    let t : State = (exchange_authorization_code svc later code uri' verifier' s').1 in
    let two =
      exchange_authorization_code-Redeemed svc later code uri' verifier' s' t again
        (ap (λ (r : Result TokenResponse). (r, t)) k) in
    let kept : s'.auth_codes ≡ (marked hash s).auth_codes =
      ap (λ (d : Database). d.auth_codes) one.issued.tables in
    let spent = marked_row hash s one.code one.row in
    let row = two.row in
    let unused = two.conditions.unused in ground (arith, ap (first (hash_is hash)) kept)
