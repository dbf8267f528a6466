-- ===== src/Oauth/Login/Verified.antt =====
-- oauth/service.go: CompleteAfterEmailVerification and BuildAuthorizeRedirectURL.
use Prim.Native.String
use orion_auth_backend.Prelude.{
  ℕ, String, Bool, true, not, List, [], ◌∷◌, ◌++◌, Option, none, some, str_eq, ◌==◌, if◌then◌else◌,
}
use orion_auth_backend.Errors.{invalid_request, server_error}
use orion_auth_backend.Exec.{Exec, Result, ok, err, lift, found, fail_if, ◌>>=◌, ◌>>◌}
use orion_auth_backend.Model.{AuthorizationRequest, State, request_is_expired}
use orion_auth_backend.Oauth.Service.{Service}
use orion_auth_backend.Oauth.Repository.Flow.{auth_request_by_id}
use orion_auth_backend.Oauth.Authorize.{AuthorizeConsentResponse, complete_authorize}
use orion_auth_backend.Oauth.Login.{save_step}

-- net/url: a parsed URL as its text before the query, its query and its fragment.
pub record Url : Type 0 where
  pub base : String
  pub raw_query : String
  pub fragment : String

pub record UrlLibrary : Type 0 where
  pub parse : String → Option Url
  pub print : Url → String
  -- url.Values.Encode
  pub encode : List (String × String) → String

-- `if v != "" { params.Set(key, v) }`
abbrev set_if : String → String → List (String × String)
set_if key v = if str_eq v "" then [] else (key, v) ∷ []

abbrev token_params : AuthorizeConsentResponse → List (String × String)
token_params resp =
    if str_eq resp.access_token ""
    then []
    else ("access_token", resp.access_token) ∷ ("token_type", resp.token_type) ∷ []

unfoldable pub redirect_params : AuthorizeConsentResponse → List (String × String)
redirect_params resp =
    set_if "code" resp.code
    ++ set_if "state" resp.state
    ++ set_if "iss" resp.issuer
    ++ token_params resp
    ++ set_if "id_token" resp.id_token

abbrev joined_query : String → String → String
joined_query old new = if str_eq old "" then new else String.◌++◌ old (String.◌++◌ "&" new)

module _ (url : UrlLibrary) where
  abbrev placed : AuthorizeConsentResponse → Url → Url
  placed resp u =
      let text = url.encode (redirect_params resp) in
      if str_eq resp.response_mode "fragment"
      then record u { fragment = text }
      else record u { raw_query = joined_query u.raw_query text }

  abbrev rendered : AuthorizeConsentResponse → Option Url → Result String
  rendered resp none = err (server_error "invalid redirect_uri")
  rendered resp (some u) = ok (url.print (placed resp u))

  unfoldable pub build_redirect_url : AuthorizeConsentResponse → Result String
  unfolding redirect_params
  build_redirect_url resp =
      if str_eq resp.redirect_uri ""
      then err (server_error "missing redirect_uri in authorize response")
      else rendered resp (url.parse resp.redirect_uri)

  module _ (svc : Service) where
    -- the row of a user whose address is verified
    abbrev pub verify_row : AuthorizationRequest → AuthorizationRequest
    verify_row req = record req {
      authenticated = true;
      auth_time = some svc.now;
      consent_given = true;
      auth_methods = req.auth_methods ++ "email" ∷ [];
    }

    abbrev pub is_other : ℕ → Option ℕ → Bool
    is_other user none = true
    is_other user (some u) = not (u == user)

    unfoldable pub complete_after_verification :
        (request_id user : ℕ) (ip agent : String) → Exec State String
    complete_after_verification request_id user ip agent = do
      req ←
          found (invalid_request "authorization request not found")
            (auth_request_by_id svc.world request_id)
      fail_if (request_is_expired svc.wall req) (invalid_request "authorization request expired")
      fail_if (is_other user req.user_id)
          (invalid_request "authorization request does not match user")
      save_step svc (verify_row req)
      resp ← complete_authorize svc (verify_row req) ip agent
      lift (build_redirect_url resp)
