-- ===== src/Oauth/Service.antt =====
-- The Service struct of oauth/service.go, the interfaces that it is built from, and the consultation
-- of a policy. An optional integration is an Option: none is the nil interface.
use orion_auth_backend.Prelude.{
  ℕ, String, ◌≡◌, Bool, List, [], ◌∷◌, Option, none, some, IsSubset, IsSubset-refl, deref_or,
  Option-cases, inl, inr, arith, if◌then◌else◌,
}
use orion_auth_backend.Errors.{access_denied}
use orion_auth_backend.Exec.{Result, ok, err, Exec}
use orion_auth_backend.Model.{ApiResource, OauthClient, User, State}
use orion_auth_backend.Session.{SessionConfig}
use orion_auth_backend.World.{World}
use orion_auth_backend.Oauth.Params.{ParamsCodec}
use orion_auth_backend.Oauth.Modify.{Fields, end, read_modify_scopes, read_modify_scopes-IsSubset}

pub record PolicyResult : Type 0 where
  pub deny : Bool
  pub deny_reason : String
  pub modify : Option Fields

-- The arguments of the Build…Input functions of policy/inputs/inputs.go.
pub data PolicyInput : Type 0 where
  login : User → OauthClient → (roles perms : List String) → (ip agent : String) → PolicyInput
  mfa :
      User
      → OauthClient
      → (roles perms scopes : List String) → Bool
      → (ip agent : String) → PolicyInput
  consent :
      User
      → OauthClient
      → (roles perms requested granted : List String) → (ip agent : String) → PolicyInput
  refresh :
      Option User → OauthClient → (roles perms requested granted : List String) → ℕ → PolicyInput
  token_issuance : OauthClient → Option User → (roles perms scopes : List String) → PolicyInput
  device_approval :
      User
      → Option OauthClient
      → (roles perms scopes : List String) → (code ip agent : String) → PolicyInput
  introspect : (kind : String) → ℕ → Option ℕ → List String → Option String → ℕ → PolicyInput

-- ResourceValidator; the law is what the query of ValidateUserScopes in resource/repository.go
-- gives, whose names lie in the requested ones.
pub record ResourceValidator : Type 0 where
  pub validate_audience : String → Result (Option ApiResource)
  pub validate_client_scopes : (client resource : ℕ) → List String → Result (List String)
  pub validate_user_scopes : (user resource : ℕ) → List String → Result (List String)
  pub user_scopes_narrow :
      (user resource : ℕ) (scopes allowed : List String)
      → validate_user_scopes user resource scopes ≡ ok allowed
      → IsSubset allowed scopes

pub record AccessTokenClaims : Type 0 where
  pub user_id : Option ℕ
  pub client_id : ℕ
  pub scopes : List String
  pub audience : String
  pub ttl : ℕ
  pub extra_claims : Option Fields

-- The claims of a validated JWT access token that the service reads; none is an absent claim or
-- one of another type.
pub record ValidatedClaims : Type 0 where
  pub jti : Option String
  pub client_id : Option String
  pub scope : Option String
  pub aud : Option String
  pub sub : Option String
  pub exp : Option ℕ
  pub iat : Option ℕ

-- AccessTokenJWTSigner
pub record JwtSigner : Type 0 where
  pub generate_jwt : AccessTokenClaims → String → Result (String × String)
  pub validate_jwt : String → Result ValidatedClaims

pub record IdTokenClaims : Type 0 where
  pub user_id : ℕ
  pub client_id : ℕ
  pub scopes : List String
  pub nonce : String
  pub auth_time : ℕ
  pub at_hash : String
  pub c_hash : String
  pub s_hash : String
  pub ttl : ℕ
  pub requested_claims : String
  pub acr : String
  pub amr : List String
  pub subject_type : String
  pub sector_identifier : String
  pub extra_claims : Option Fields
  pub encryption_jwks_uri : String
  pub encryption_alg : String
  pub encryption_enc : String

pub record RoleProvider : Type 0 where
  pub user_role_names : ℕ → Result (List String)
  pub user_permissions : ℕ → Result (List String)

-- user.LoginInput
pub record LoginInput : Type 0 where
  pub email : String
  pub password : String

-- user.RegisterInput
pub record RegisterInput : Type 0 where
  pub email : String
  pub password : String
  pub display_name : Option String
  pub extra_fields : Fields
  pub skip_verification_email : Bool

-- What oauth/ calls of user.Service. It writes no table of the authorization flow.
pub record UserService : Type 0 where
  pub authenticate : LoginInput → Exec State User
  pub register : RegisterInput → Exec State User
  pub send_verification_email : ℕ → Option ℕ → Exec State Unit
  pub authenticate_keeps :
      (input : LoginInput) (s : State) → (authenticate input s).1.auth_requests ≡ s.auth_requests
  pub register_keeps :
      (input : RegisterInput) (s : State) → (register input s).1.auth_requests ≡ s.auth_requests
  pub send_keeps :
      (user : ℕ) (request : Option ℕ) (s : State)
      → (send_verification_email user request s).1.auth_requests ≡ s.auth_requests

-- MFAValidator, under the same law.
pub record MfaValidator : Type 0 where
  pub has_mfa : ℕ → Exec State Bool
  pub validate_code : ℕ → (code : String) → Exec State Bool
  pub has_mfa_keeps : (user : ℕ) (s : State) → (has_mfa user s).1.auth_requests ≡ s.auth_requests
  pub validate_code_keeps :
      (user : ℕ) (code : String) (s : State)
      → (validate_code user code s).1.auth_requests ≡ s.auth_requests

pub record Service : Type 0 where
  pub world : World
  pub open world use *
  pub issuer : String
  pub session_config : SessionConfig
  -- the scheme and the host of a URI
  pub extract_origin : String → String
  pub auth_code_ttl : ℕ
  pub device_code_ttl : ℕ
  pub id_token_generator : Option (IdTokenClaims → Result String)
  pub jwt_signer : Option JwtSigner
  pub policy_evaluator : Option (PolicyInput → Result (Option PolicyResult))
  pub resource_validator : Option ResourceValidator
  pub role_provider : Option RoleProvider
  -- uuid.UUID.String and uuid.Parse
  pub uuid_text : ℕ → String
  pub parse_uuid : String → Option ℕ
  pub id_token_validator : Option (String → Result ℕ)
  pub mfa_validator : Option MfaValidator
  pub user_service : UserService
  pub params_codec : ParamsCodec

abbrev pub or_empty : Result (List String) → List String
or_empty (ok names) = names
or_empty (err _) = []

-- loadRoles
unfoldable pub load_roles : Option RoleProvider → ℕ → List String × List String
load_roles none user = ([], [])
load_roles (some p) user = (or_empty (p.user_role_names user), or_empty (p.user_permissions user))

abbrev pub no_error : Result (Option PolicyResult) → Option PolicyResult
no_error (ok result) = result
no_error (err _) = none

-- The verdict of `policyEvaluator.Evaluate` when there is an evaluator, no error and a result; an
-- evaluation that fails is logged and passed over.
unfoldable pub consult :
    Option (PolicyInput → Result (Option PolicyResult)) → PolicyInput → Option PolicyResult
consult none input = none
consult (some evaluate) input = no_error (evaluate input)

-- `result.Modify`, empty when nil
abbrev pub modifications : PolicyResult → Fields
modifications r = deref_or end r.modify

abbrev pub some_scopes : List String → Result (List String)
some_scopes [] = err (access_denied "policy narrowed all scopes")
some_scopes (s ∷ scopes) = ok (s ∷ scopes)

abbrev pub narrowed_or : List String → Option (List String) → Result (List String)
narrowed_or granted none = ok granted
narrowed_or granted (some narrowed) = some_scopes narrowed

-- The consent and refresh policies: a denial, or a narrowing that must leave some scope.
unfoldable pub judge_scopes : List String → Option PolicyResult → Result (List String)
judge_scopes granted none = ok granted
judge_scopes granted (some r) =
    if r.deny
    then err (access_denied r.deny_reason)
    else narrowed_or granted (read_modify_scopes (modifications r) granted)

narrowed_or-IsSubset :
    (modify : Fields) (granted scopes : List String)
    → narrowed_or granted (read_modify_scopes modify granted) ≡ ok scopes
    → IsSubset scopes granted
narrowed_or-IsSubset modify granted scopes h =
    elim (Option-cases (read_modify_scopes modify granted)) [
      | inl absent ↦
          let same : granted ≡ scopes = ground arith in rw (← same) (IsSubset-refl granted)
      | inr (n, given) ↦
          let same : n ≡ scopes = ground arith in
          rw (← same) (read_modify_scopes-IsSubset modify granted n given)
    ]

-- The consent and refresh policies add no scope.
pub judge_scopes-IsSubset :
    (granted : List String) (verdict : Option PolicyResult) (scopes : List String)
    → judge_scopes granted verdict ≡ ok scopes
    → IsSubset scopes granted
unfolding judge_scopes
judge_scopes-IsSubset granted none scopes h =
    let same : granted ≡ scopes = ground arith in rw (← same) (IsSubset-refl granted)
judge_scopes-IsSubset granted (some r) scopes h =
    narrowed_or-IsSubset (modifications r) granted scopes (ground arith)
