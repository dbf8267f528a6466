-- ===== src/Oauth/Start/Init.antt =====
-- oauth/service.go: InitAuthorize.
use orion_auth_backend.Prelude.{true, not, ◌&&◌, ◌||◌, Option, none, some, str_eq}
use orion_auth_backend.Errors.{server_error}
use orion_auth_backend.Exec.{Exec, pure, lift, or_raise, branch, ◌>>=◌, ◌>>◌}
use orion_auth_backend.Model.{OauthClient, State}
use orion_auth_backend.Oauth.Params.{InitAuthorizeParams, guard_all}
use orion_auth_backend.Oauth.Service.{Service}
use orion_auth_backend.Oauth.Repository.Flow.{insert_auth_request}
use orion_auth_backend.Oauth.Start.{
  InitAuthorizeResponse, Granted, init_guards, grant_scopes, login_request,
}
use orion_auth_backend.Oauth.Start.Silent.{handle_prompt_none, try_silent_sso}

module _ (svc : Service) where
  -- the end of InitAuthorize: the login screen
  unfoldable pub ask_for_login :
      OauthClient → InitAuthorizeParams → Granted → Exec State InitAuthorizeResponse
  ask_for_login client p g = do
    stored ←
        or_raise (server_error "failed to create authorization request")
          (insert_auth_request svc.world (login_request svc client p g))
    pure (record {
      request_id = stored.id;
      client_name = client.name;
      client_id = client.id;
      scopes_requested = g.scopes;
      requires_login = true;
      requires_consent = not client.is_first_party || str_eq p.prompt "consent";
      resource = g.resource;
      login_hint = p.login_hint;
      display = p.display;
      prompt = p.prompt;
      response_mode = p.response_mode;
      redirect = none;
    })

  abbrev pub or_ask :
      OauthClient
      → InitAuthorizeParams
      → Granted
      → Option InitAuthorizeResponse
      → Exec State InitAuthorizeResponse
  or_ask client p g none = ask_for_login client p g
  or_ask client p g (some resp) = pure resp

  unfoldable pub sso_or_login :
      OauthClient → InitAuthorizeParams → Granted → Exec State InitAuthorizeResponse
  sso_or_login client p g = do resp ← try_silent_sso svc client p g; or_ask client p g resp

  -- InitAuthorize, once the parameters are valid
  unfoldable pub start :
      OauthClient → InitAuthorizeParams → Granted → Exec State InitAuthorizeResponse
  start client p g = branch (str_eq p.prompt "none") (handle_prompt_none svc client p g) (
      branch (not (str_eq p.session_cookie "") && not (str_eq p.prompt "login"))
        (sso_or_login client p g) (ask_for_login client p g))

  unfoldable pub init_authorize :
      OauthClient → InitAuthorizeParams → Exec State InitAuthorizeResponse
  init_authorize client p = do
    lift (guard_all (init_guards svc client p))
    g ← lift (grant_scopes svc client p)
    start client p g
