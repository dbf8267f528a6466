-- ===== src/Oauth/Start/Pushed.antt =====
-- oauth/service.go: CreatePAR and InitAuthorizeFromPAR, the pushed authorization requests.
use Prim.Native.String
use orion_auth_backend.Prelude.{ℕ, ◌+◌, ◌*◌, String, not, Option, none, some, str_eq}
use orion_auth_backend.Errors.{invalid_request, unsupported_response_type, server_error, panic}
use orion_auth_backend.Exec.{
  Exec, Result, ok, err, pure, lift, or_raise, found, fail_if, ignore, ◌>>=◌, ◌>>◌,
}
use orion_auth_backend.Model.{OauthClient, PushedRequest, State, has_redirect_uri}
use orion_auth_backend.World.{second, new_uuid}
use orion_auth_backend.Oauth.Scopes.{is_valid_response_type}
use orion_auth_backend.Oauth.Params.{InitAuthorizeParams}
use orion_auth_backend.Oauth.Service.{Service}
use orion_auth_backend.Oauth.Repository.{client_by_id}
use orion_auth_backend.Oauth.Repository.Flow.{insert_par, par_by_uri, remove_par}
use orion_auth_backend.Oauth.Start.{InitAuthorizeResponse}
use orion_auth_backend.Oauth.Start.Init.{init_authorize}

pub record ParResponse : Type 0 where
  pub request_uri : String
  pub expires_in : ℕ

module _ (svc : Service) where
  abbrev par_row : OauthClient → (uri params : String) → PushedRequest
  par_row client uri params = record {
    request_uri = uri;
    client_id = client.id;
    params = params;
    expires_at = svc.now + 60 * second;
    created_at = svc.wall;
  }

  abbrev serialized : Option String → Result String
  serialized none = err (server_error "failed to serialize PAR params")
  serialized (some text) = ok text

  -- uuid.Must panics when no UUID can be drawn.
  unfoldable pub create_par : OauthClient → InitAuthorizeParams → Exec State ParResponse
  unfolding ◌>>=◌ insert_par new_uuid
  create_par client p = do
    fail_if (not (is_valid_response_type p.response_type))
        (unsupported_response_type "invalid response_type")
    fail_if (not (has_redirect_uri client p.redirect_uri)) (invalid_request "invalid redirect_uri")
    params ← lift (serialized (svc.params_codec.marshal p))
    id ← new_uuid svc.world panic
    let uri = String.◌++◌ "urn:ietf:params:oauth:request_uri:" (svc.uuid_text id)
    or_raise (server_error "failed to store PAR") (insert_par svc.world (par_row client uri params))
    pure (record { request_uri = uri; expires_in = 60 })

  abbrev parsed : Option InitAuthorizeParams → Result InitAuthorizeParams
  parsed none = err (server_error "failed to parse PAR params")
  parsed (some p) = ok p

  unfoldable pub init_authorize_from_par :
      (request_uri client_id cookie : String) → Exec State InitAuthorizeResponse
  init_authorize_from_par request_uri client_id cookie = do
    par ←
        found (invalid_request "invalid or expired request_uri") (par_by_uri svc.world request_uri)
    fail_if (not (str_eq (svc.uuid_text par.client_id) client_id))
        (invalid_request "client_id mismatch")
    ignore (remove_par svc.world request_uri)
    p ← lift (parsed (svc.params_codec.unmarshal par.params))
    client ← client_by_id svc.world par.client_id
    init_authorize svc client (record p { session_cookie = cookie })
