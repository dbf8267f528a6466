-- ===== src/Oauth/Revoke.antt =====
-- oauth/revoke.go: token revocation, RFC 7009.
pub mod Laws
use Prim.Native.Char.{Char, code}
use Prim.Native.String
use orion_auth_backend.Prelude.{
  ℕ, ◌+◌, ◌*◌, zero, suc, String, Bool, true, false, not, ◌&&◌, ◌||◌, Option, none, some, ◌==◌,
  str_eq, deref_or, if◌then◌else◌,
}
use orion_auth_backend.Errors.{Error, invalid_request, server_error}
use orion_auth_backend.Exec.{
  Exec, Result, ok, err, pure, or_raise, optional, fail_if, branch, when, ignore, ◌>>=◌, ◌>>◌,
}
use orion_auth_backend.Model.{OauthClient, AccessToken, RefreshToken, State}
use orion_auth_backend.World.{World, second}
use orion_auth_backend.Oauth.Service.{Service, JwtSigner, ValidatedClaims}
use orion_auth_backend.Oauth.Repository.{
  refresh_token_by_id, access_token_by_id, revoke_family, revoke_by_session,
  revoke_access_token_by_id, deny_jti,
}

-- strings.Count(s, ".")
unfoldable pub count_dots : String → ℕ
count_dots String.[] = 0
count_dots (String.◌∷◌ c s) = let n = count_dots s in if code c == b'.' then suc n else n

-- looksLikeJWT of oauth/introspect.go
unfoldable pub looks_like_jwt : String → Bool
unfolding count_dots
looks_like_jwt token = count_dots token == 2

-- `tokenTypeHint == "" || tokenTypeHint == kind`
abbrev pub hints : String → String → Bool
hints kind hint = str_eq hint "" || str_eq hint kind

abbrev valid_claims : Result ValidatedClaims → Option ValidatedClaims
valid_claims (ok claims) = some claims
valid_claims (err _) = none

-- The claims of a token that is tried as a JWT access token and validates.
unfoldable pub jwt_claims : Option JwtSigner → (token hint : String) → Option ValidatedClaims
unfolding looks_like_jwt
jwt_claims none token hint = none
jwt_claims (some signer) token hint =
    if hints "access_token" hint && looks_like_jwt token
    then valid_claims (signer.validate_jwt token)
    else none

-- a query that is made only under a test
abbrev pub only_if : {A : Type 0} → Bool → Exec State (Option A) → Exec State (Option A)
only_if test m = branch test m (pure none)

module _ (svc : Service) where
  unfoldable pub revoke_refresh_token : RefreshToken → Exec State Unit
  unfolding ◌>>=◌ revoke_family revoke_by_session
  revoke_refresh_token rt = do
    or_raise (server_error "failed to revoke refresh token") (revoke_family svc.world rt.family_id)
    ignore (revoke_by_session svc.world rt.session_id)

  unfoldable pub revoke_access_token : AccessToken → Exec State Unit
  unfolding ◌>>=◌ revoke_access_token_by_id
  revoke_access_token at =
      or_raise (server_error "failed to revoke access token")
        (revoke_access_token_by_id svc.world at.id)

  abbrev expiry : Option ℕ → ℕ
  expiry none = svc.now + 86400 * second
  expiry (some exp) = exp * second

  -- The JWT branch; true when the request is answered there.
  unfoldable pub deny_jwt : OauthClient → Option ValidatedClaims → Exec State Bool
  unfolding ◌>>=◌ deny_jti
  deny_jwt client none = pure false
  deny_jwt client (some claims) =
      branch (not (str_eq (deref_or "" claims.client_id) (svc.uuid_text client.id))) (pure true) (do
        when (not (str_eq (deref_or "" claims.jti) "")) (
            or_raise (server_error "failed to denylist jwt access token")
              (deny_jti svc.world (deref_or "" claims.jti) (expiry claims.exp)))
        pure false)

  -- a token of another client is answered with success and left alone
  unfoldable pub revoke_found_refresh : OauthClient → RefreshToken → Exec State Unit
  unfolding ◌>>=◌ revoke_refresh_token
  revoke_found_refresh client rt =
      branch (rt.client_id == client.id) (revoke_refresh_token rt) (pure tt)

  unfoldable pub revoke_found_access : OauthClient → Option AccessToken → Exec State Unit
  unfolding ◌>>=◌ revoke_access_token
  revoke_found_access client none = pure tt
  revoke_found_access client (some at) =
      branch (at.client_id == client.id) (revoke_access_token at) (pure tt)

  -- the refresh token with this hash first, then the access token
  unfoldable pub revoke_by_hash :
      OauthClient → (hash hint : String) → Option RefreshToken → Exec State Unit
  unfolding ◌>>=◌ revoke_found_refresh revoke_found_access access_token_by_id
  revoke_by_hash client hash hint (some rt) = revoke_found_refresh client rt
  revoke_by_hash client hash hint none = do
    at ← optional (only_if (hints "access_token" hint) (access_token_by_id svc.world hash))
    revoke_found_access client at

  unfoldable pub revoke_opaque : OauthClient → (token hint : String) → Exec State Unit
  unfolding ◌>>=◌ refresh_token_by_id revoke_by_hash
  revoke_opaque client token hint = do
    let hash = svc.hash_token token
    rt ← optional (only_if (hints "refresh_token" hint) (refresh_token_by_id svc.world hash))
    revoke_by_hash client hash hint rt

  unfoldable pub revoke : (token hint : String) → OauthClient → Exec State Unit
  unfolding ◌>>=◌ deny_jwt revoke_opaque
  revoke token hint client = do
    fail_if (str_eq token "") (invalid_request "missing token")
    answered ← deny_jwt client (jwt_claims svc.jwt_signer token hint)
    branch answered (pure tt) (revoke_opaque client token hint)
