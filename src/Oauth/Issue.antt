-- ===== src/Oauth/Issue.antt =====
-- issueTokensWithOpts of oauth/service.go: the one place where access and refresh tokens are made
-- for a user. The user is a pointer that every caller gives; the session may be nil, and the code
-- then panics where it dereferences it.
pub mod Laws
use orion_auth_backend.Prelude.{
  ℕ, ◌+◌, ◌*◌, String, Bool, true, false, not, ◌&&◌, List, [], ◌∷◌, Option, none, some, ltb, str_eq,
  is_some, deref_or, if◌then◌else◌,
}
use orion_auth_backend.Errors.{Error, access_denied, server_error, panic}
use orion_auth_backend.Exec.{
  Exec, Result, ok, err, pure, raise, lift, or_raise, optional, require, fail_if, gets, ◌>>=◌, ◌>>◌,
}
use orion_auth_backend.Model.{
  OauthClient, ApiResource, AccessToken, RefreshToken, State, User, emits_jwt_access_tokens,
}
use orion_auth_backend.World.{World, second, generate}
use orion_auth_backend.Oauth.Scopes.{
  split_resource_scopes, union_scopes, contains_scope, join_scopes,
}
use orion_auth_backend.Oauth.Modify.{
  Fields, Value, get, read_modify_int, read_modify_scopes, object_fields,
}
use orion_auth_backend.Oauth.Service.{
  Service, PolicyInput, PolicyResult, ResourceValidator, JwtSigner, IdTokenClaims, load_roles,
  consult, modifications, token_issuance,
}
use orion_auth_backend.Oauth.Repository.{user_by_id, insert_access_token, insert_refresh_token}

pub record TokenResponse : Type 0 where
  pub access_token : String
  pub token_type : String
  pub expires_in : ℕ
  pub refresh_token : String
  pub id_token : String
  pub scope : String

-- issueOpts, less resourceID, which no caller sets; a zero time is none.
pub record IssueOpts : Type 0 where
  pub nonce : String
  pub auth_time : Option ℕ
  pub audience : Option String
  pub requested_claims : String
  pub acr : String
  pub amr : List String

-- What the issuance policy leaves of the client's lifetimes and the scopes.
pub record Grant : Type 0 where
  pub access_token_ttl : ℕ
  pub refresh_token_ttl : ℕ
  pub scopes : List String
  pub extra_claims : Option Fields

abbrev pub plain_grant : OauthClient → List String → Grant
plain_grant client scopes = record {
  access_token_ttl = client.access_token_ttl;
  refresh_token_ttl = client.refresh_token_ttl;
  scopes = scopes;
  extra_claims = none;
}

abbrev pub modified_grant : OauthClient → List String → Fields → Grant
modified_grant client scopes modify = record {
  access_token_ttl = deref_or client.access_token_ttl (read_modify_int modify "access_token_ttl");
  refresh_token_ttl =
      deref_or client.refresh_token_ttl (read_modify_int modify "refresh_token_ttl");
  scopes = deref_or scopes (read_modify_scopes modify scopes);
  extra_claims = object_fields (get "claims" modify);
}

abbrev pub judge : OauthClient → List String → Option PolicyResult → Result Grant
judge client scopes none = ok (plain_grant client scopes)
judge client scopes (some r) =
    if r.deny
    then err (access_denied r.deny_reason)
    else ok (modified_grant client scopes (modifications r))

-- The minted access token: its raw text, its row's key and its jti.
pub record Minted : Type 0 where
  pub raw : String
  pub id : String
  pub jti : Option String

abbrev as_minted : (String → String) → Result (String × String) → Result Minted
as_minted hash (ok (text, jti)) = ok (record { raw = text; id = hash text; jti = some jti })
as_minted hash (err _) = err (server_error "failed to generate access token")

abbrev valid_resource : Result (Option ApiResource) → Option ApiResource
valid_resource (ok found) = found
valid_resource (err _) = none

-- `scopes` stay as they are when the validation fails
abbrev pub keep_or : List String → List String → Result (List String) → List String
keep_or scopes other (ok allowed) = union_scopes other allowed
keep_or scopes other (err _) = scopes

-- `if len(resourceScopes) > 0`
abbrev pub narrow_group :
    ResourceValidator → ℕ → ℕ → List String → List String → List String → List String
narrow_group v resource user scopes other [] = scopes
narrow_group v resource user scopes other (r ∷ rs) =
    keep_or scopes other (v.validate_user_scopes user resource (r ∷ rs))

-- the scopes of the resource are narrowed to what RBAC allows the user
abbrev pub narrow_by : ResourceValidator → ApiResource → ℕ → List String → List String
narrow_by v res user scopes =
    let (resource, other) = split_resource_scopes scopes res.permissions in
    narrow_group v res.id user scopes other resource

module _ (svc : Service) where
  -- the policy step
  unfoldable pub issuance_grant : OauthClient → ℕ → List String → Exec State Grant
  unfolding ◌>>=◌ user_by_id
  issuance_grant client user scopes = elim svc.policy_evaluator [
    | none ↦ pure (plain_grant client scopes)
    | some evaluate ↦ do
      u ← optional (user_by_id svc.world user)
      let (roles, perms) = load_roles svc.role_provider user
      lift (
          judge client scopes
            (consult (some evaluate) (token_issuance client u roles perms scopes)))
  ]

  -- the resource that the audience names
  unfoldable pub resolve_resource : Option String → Option ApiResource
  resolve_resource audience = elim svc.resource_validator [
    | none ↦ none
    | some v ↦ elim audience [ none ↦ none | some a ↦ valid_resource (v.validate_audience a) ]
  ]

  unfoldable pub user_scopes : ℕ → Option ApiResource → List String → List String
  user_scopes user resource scopes = elim svc.resource_validator [
    | none ↦ scopes
    | some v ↦ elim resource [ none ↦ scopes | some res ↦ narrow_by v res user scopes ]
  ]

  abbrev pub access_ttl : Grant → Option ApiResource → ℕ
  access_ttl g none = g.access_token_ttl
  access_ttl g (some res) =
      if ltb 0 res.access_token_ttl then res.access_token_ttl else g.access_token_ttl

  mint_opaque : Exec State Minted
  unfolding ◌>>=◌ generate
  mint_opaque = do
    raw ← generate svc.world (server_error "failed to generate access token")
    pure (record { raw = raw; id = svc.hash_token raw; jti = none })

  -- JWT when the resource asks for it and a signer is there, opaque otherwise
  unfoldable pub mint :
      (user : Option ℕ)
      → (client : ℕ) → List String
      → (audience : String) → (ttl : ℕ) → Option Fields
      → Option ApiResource
      → Exec State Minted
  unfolding ◌>>=◌ mint_opaque
  mint user client scopes audience ttl extra resource = elim resource [
    | none ↦ mint_opaque
    | some res ↦ elim svc.jwt_signer [
      | none ↦ mint_opaque
      | some signer ↦
          if emits_jwt_access_tokens res
          then lift (
              as_minted svc.hash_token (
                signer.generate_jwt
                  (record {
                    user_id = user;
                    client_id = client;
                    scopes = scopes;
                    audience = audience;
                    ttl = ttl;
                    extra_claims = extra;
                  })
                  res.signing_alg))
          else mint_opaque
    ]
  ]

  -- `familyID, _ := uuid.NewV7()`: the nil UUID when it fails
  unfoldable pub draw_family : Exec State ℕ
  draw_family s = (ok (deref_or 0 (svc.uuid s.draws)), record s { draws = s.draws + 1 })

  abbrev pub refresh_row :
      OauthClient → ℕ → ℕ → Grant → List String → IssueOpts → String → ℕ → RefreshToken
  refresh_row client user session g scopes opts id family = record {
    id = id;
    client_id = client.id;
    user_id = user;
    session_id = session;
    scopes = scopes;
    audience = opts.audience;
    family_id = family;
    parent_id = none;
    expires_at = svc.now + g.refresh_token_ttl * second;
    revoked = false;
    rotated_at = none;
    created_at = svc.wall;
  }

  abbrev pub access_row :
      OauthClient → ℕ → ℕ → ℕ → List String → IssueOpts → String → Minted → AccessToken
  access_row client user session ttl scopes opts rt_id m = record {
    id = m.id;
    client_id = client.id;
    user_id = some user;
    session_id = some session;
    refresh_token_id = some rt_id;
    scopes = scopes;
    audience = opts.audience;
    jti = m.jti;
    expires_at = svc.now + ttl * second;
    revoked = false;
    created_at = svc.wall;
  }

  abbrev pub id_token_claims :
      OauthClient → ℕ → List String → Grant → IssueOpts → String → IdTokenClaims
  id_token_claims client user scopes g opts raw_at = record {
    user_id = user;
    client_id = client.id;
    scopes = scopes;
    nonce = opts.nonce;
    auth_time = deref_or svc.now opts.auth_time;
    at_hash = svc.left_half raw_at;
    c_hash = "";
    s_hash = "";
    ttl = client.id_token_ttl * second;
    requested_claims = opts.requested_claims;
    acr = opts.acr;
    amr = opts.amr;
    subject_type = client.subject_type;
    sector_identifier = deref_or "" client.sector_identifier_uri;
    extra_claims = g.extra_claims;
    encryption_jwks_uri = deref_or "" client.jwks_uri;
    encryption_alg = deref_or "" client.id_token_encrypted_response_alg;
    encryption_enc = deref_or "" client.id_token_encrypted_response_enc;
  }

  abbrev text_or_empty : Result String → String
  text_or_empty (ok t) = t
  text_or_empty (err _) = ""

  -- the ID token, empty without the openid scope, without a generator or when it fails
  unfoldable pub id_token : OauthClient → ℕ → List String → Grant → IssueOpts → String → String
  id_token client user scopes g opts raw_at = elim svc.id_token_generator [
    | none ↦ ""
    | some generate_id ↦
        if contains_scope scopes "openid"
        then text_or_empty (generate_id (id_token_claims client user scopes g opts raw_at))
        else ""
  ]

  -- the two rows and the response, once the grant, the scopes and the lifetime are fixed
  unfoldable pub store_tokens :
      OauthClient
      → ℕ
      → Option ℕ
      → Grant
      → List String
      → ℕ
      → IssueOpts
      → Minted
      → Exec State TokenResponse
  unfolding ◌>>=◌ generate draw_family insert_access_token insert_refresh_token
  store_tokens client user session_id g scopes ttl opts m = do
    raw_rt ← generate svc.world (server_error "failed to generate refresh token")
    family ← draw_family
    session ← require panic session_id
    let rt_hash = svc.hash_token raw_rt
    or_raise (server_error "failed to store refresh token") (
        insert_refresh_token svc.world
          (refresh_row client user session g scopes opts rt_hash family))
    or_raise (server_error "failed to store access token")
        (insert_access_token svc.world (access_row client user session ttl scopes opts rt_hash m))
    pure (record {
      access_token = m.raw;
      token_type = "Bearer";
      expires_in = ttl;
      refresh_token = raw_rt;
      id_token = id_token client user scopes g opts m.raw;
      scope = join_scopes scopes;
    })

  unfoldable pub issue_tokens :
      OauthClient → ℕ → Option ℕ → List String → IssueOpts → Exec State TokenResponse
  issue_tokens client user session_id requested opts = do
    g ← issuance_grant client user requested
    let resource = resolve_resource opts.audience
    let scopes = user_scopes user resource g.scopes
    let ttl = access_ttl g resource
    m ← mint (some user) client.id scopes (deref_or "" opts.audience) ttl g.extra_claims resource
    store_tokens client user session_id g scopes ttl opts m
