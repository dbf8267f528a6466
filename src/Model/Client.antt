-- ===== src/Model/Client.antt =====
-- model/client.go: the registered OAuth client, and model/api_resource.go.
use orion_auth_backend.Prelude.{
  ℕ, String, Bool, List, [], ◌∷◌, Option, contains, str_eq, if◌then◌else◌,
}

pub record OauthClient : Type 0 where
  pub id : ℕ
  pub name : String
  pub redirect_uris : List String
  pub grant_types : List String
  pub scopes : List String
  pub is_public : Bool
  pub is_first_party : Bool
  pub require_pkce : Bool
  pub jwks_uri : Option String
  pub access_token_ttl : ℕ
  pub refresh_token_ttl : ℕ
  pub id_token_ttl : ℕ
  pub subject_type : String
  pub sector_identifier_uri : Option String
  pub id_token_encrypted_response_alg : Option String
  pub id_token_encrypted_response_enc : Option String
  pub active : Bool

unfoldable pub has_grant_type : OauthClient → String → Bool
unfolding contains
has_grant_type c grant_type = contains c.grant_types grant_type

unfoldable pub has_scope : OauthClient → String → Bool
unfolding contains
has_scope c scope = contains c.scopes scope

unfoldable pub has_redirect_uri : OauthClient → String → Bool
unfolding contains
has_redirect_uri c uri = contains c.redirect_uris uri

-- the loop of ValidateScopes
unfoldable pub keep_registered : OauthClient → List String → List String
keep_registered c [] = []
keep_registered c (r ∷ requested) =
    let valid = keep_registered c requested in if has_scope c r then r ∷ valid else valid

unfoldable pub validate_scopes : OauthClient → List String → List String
validate_scopes c [] = c.scopes
validate_scopes c (r ∷ requested) = keep_registered c (r ∷ requested)

pub record ResourcePermission : Type 0 where
  pub name : String
  pub description : Option String

pub record ApiResource : Type 0 where
  pub id : ℕ
  pub name : String
  pub identifier : String
  pub signing_alg : String
  pub token_format : String
  pub access_token_ttl : ℕ
  pub permissions : List ResourcePermission

unfoldable pub emits_jwt_access_tokens : ApiResource → Bool
emits_jwt_access_tokens r = str_eq r.token_format "jwt"
