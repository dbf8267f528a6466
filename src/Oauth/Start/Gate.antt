-- ===== src/Oauth/Start/Gate.antt =====
-- InitAuthorize, on each of its branches, keeps the gate of the authorization requests.
use orion_auth_backend.Prelude.{ℕ, String, ◌≡◌, Bool, true, false, Option, none, some, arith}
use orion_auth_backend.Errors.{Error}
use orion_auth_backend.Exec.{Exec, or_raise, optional, ◌>>=◌}
use orion_auth_backend.Model.{AuthorizationRequest, OauthClient, Session, State}
use orion_auth_backend.World.{new_uuid}
use orion_auth_backend.Session.{find_by_cookie_token}
use orion_auth_backend.Oauth.Service.{Service}
use orion_auth_backend.Oauth.Repository.Flow.{insert_auth_request}
use orion_auth_backend.Oauth.Login.Gate.{
  IsGated, IsGateKeeping, quiet-IsGateKeeping, bind-IsGateKeeping, pure-IsGateKeeping,
  branch-IsGateKeeping, lift-IsGateKeeping, fail_if-IsGateKeeping, complete_authorize-IsGateKeeping,
}
use orion_auth_backend.Oauth.Login.Flow.{consent_quiet}
use orion_auth_backend.Oauth.Params.{InitAuthorizeParams}
use orion_auth_backend.Oauth.Start.{Granted, InitAuthorizeResponse, login_request, known_request}
use orion_auth_backend.Oauth.Start.Silent.{
  handle_prompt_none, sso_request, finish_sso, resume_session, try_silent_sso,
}
use orion_auth_backend.Oauth.Start.Init.{ask_for_login, or_ask, sso_or_login, start, init_authorize}

module _ (svc : Service) where
  -- A new row is gated under its identifier.
  insert-IsGateKeeping :
      (row : AuthorizationRequest) → IsGated row → IsGateKeeping (insert_auth_request svc.world row)
  unfolding insert_auth_request new_uuid
  insert-IsGateKeeping row g = record { at = λ s h. record { rows = ground (arith, h.rows) } }

  or_raise-IsGateKeeping :
      {A : Type 0} (e : Error) (m : Exec State A) → IsGateKeeping m → IsGateKeeping (or_raise e m)
  unfolding ◌>>=◌
  or_raise-IsGateKeeping e m k = record { at = k.at }

  optional-IsGateKeeping :
      {A : Type 0} (m : Exec State (Option A)) → IsGateKeeping m → IsGateKeeping (optional m)
  unfolding ◌>>=◌
  optional-IsGateKeeping m k = record { at = k.at }

  none_request-IsGated :
      (client : OauthClient) (p : InitAuthorizeParams) (g : Granted) (user t expiry : ℕ)
      → IsGated (record (known_request svc client p g user t) { expires_at = expiry })
  none_request-IsGated client p g user t expiry = ground arith

  sso_request-IsGated :
      (client : OauthClient) (p : InitAuthorizeParams) (g : Granted) (sess : Session) (needs : Bool)
      → IsGated (sso_request svc client p g sess needs)
  sso_request-IsGated client p g sess needs = ground arith

  login_request-IsGated :
      (client : OauthClient) (p : InitAuthorizeParams) (g : Granted)
      → IsGated (login_request svc client p g)
  login_request-IsGated client p g = ground arith

  handle_prompt_none-IsGateKeeping :
      (client : OauthClient) (p : InitAuthorizeParams) (g : Granted)
      → IsGateKeeping (handle_prompt_none svc client p g)
  unfolding handle_prompt_none
  handle_prompt_none-IsGateKeeping client p g = bind-IsGateKeeping (lift-IsGateKeeping _) λ user.
      bind-IsGateKeeping (quiet-IsGateKeeping _ (consent_quiet svc user client.id)) λ consent.
        bind-IsGateKeeping (fail_if-IsGateKeeping _ _) λ _.
          bind-IsGateKeeping
            (or_raise-IsGateKeeping _ _
              (insert-IsGateKeeping _ (none_request-IsGated client p g user _ _)))
            λ stored.
              bind-IsGateKeeping (complete_authorize-IsGateKeeping svc stored "" "")
                λ redirect. pure-IsGateKeeping _

  finish_sso-IsGateKeeping :
      (client : OauthClient) (p : InitAuthorizeParams) (g : Granted) (needs : Bool)
      (stored : AuthorizationRequest)
      → IsGateKeeping (finish_sso svc client p g needs stored)
  unfolding finish_sso
  finish_sso-IsGateKeeping client p g true stored = pure-IsGateKeeping _
  finish_sso-IsGateKeeping client p g false stored =
      bind-IsGateKeeping (complete_authorize-IsGateKeeping svc stored "" "")
        λ redirect. pure-IsGateKeeping _

  resume_session-IsGateKeeping :
      (client : OauthClient) (p : InitAuthorizeParams) (g : Granted) (o : Option Session)
      → IsGateKeeping (resume_session svc client p g o)
  unfolding resume_session
  resume_session-IsGateKeeping client p g none = pure-IsGateKeeping _
  resume_session-IsGateKeeping client p g (some sess) =
      branch-IsGateKeeping _ (pure-IsGateKeeping _) (
        bind-IsGateKeeping (quiet-IsGateKeeping _ (consent_quiet svc sess.user_id client.id))
          λ consent.
            bind-IsGateKeeping (insert-IsGateKeeping _ (sso_request-IsGated client p g sess _))
              λ stored. finish_sso-IsGateKeeping client p g _ stored)

  cookie_quiet :
      (raw : String) (s : State)
      → (find_by_cookie_token svc.world raw s).1.auth_requests ≡ s.auth_requests
  unfolding find_by_cookie_token ◌>>=◌
  cookie_quiet raw s = ground arith

  ask_for_login-IsGateKeeping :
      (client : OauthClient) (p : InitAuthorizeParams) (g : Granted)
      → IsGateKeeping (ask_for_login svc client p g)
  unfolding ask_for_login
  ask_for_login-IsGateKeeping client p g =
      bind-IsGateKeeping
        (or_raise-IsGateKeeping _ _ (insert-IsGateKeeping _ (login_request-IsGated client p g)))
        λ stored. pure-IsGateKeeping _

  or_ask-IsGateKeeping :
      (client : OauthClient) (p : InitAuthorizeParams) (g : Granted)
      (o : Option InitAuthorizeResponse)
      → IsGateKeeping (or_ask svc client p g o)
  or_ask-IsGateKeeping client p g none = ask_for_login-IsGateKeeping client p g
  or_ask-IsGateKeeping client p g (some resp) = pure-IsGateKeeping _

  sso_or_login-IsGateKeeping :
      (client : OauthClient) (p : InitAuthorizeParams) (g : Granted)
      → IsGateKeeping (sso_or_login svc client p g)
  unfolding sso_or_login try_silent_sso
  sso_or_login-IsGateKeeping client p g =
      bind-IsGateKeeping
        (optional-IsGateKeeping _ (
          bind-IsGateKeeping (quiet-IsGateKeeping _ (cookie_quiet p.session_cookie))
            λ sess. resume_session-IsGateKeeping client p g sess))
        λ resp. or_ask-IsGateKeeping client p g resp

  pub init_authorize-IsGateKeeping :
      (client : OauthClient) (p : InitAuthorizeParams) → IsGateKeeping (init_authorize svc client p)
  unfolding init_authorize start
  init_authorize-IsGateKeeping client p = bind-IsGateKeeping (lift-IsGateKeeping _) λ _.
      bind-IsGateKeeping (lift-IsGateKeeping _) λ g.
        branch-IsGateKeeping _ (handle_prompt_none-IsGateKeeping client p g) (
          branch-IsGateKeeping _ (sso_or_login-IsGateKeeping client p g)
            (ask_for_login-IsGateKeeping client p g))
