-- ===== src/Policy/Inputs.antt =====
-- policy/inputs/inputs.go: the maps that the policies are evaluated on.
use orion_auth_backend.Prelude.{
  ℕ, String, Bool, List, [], ◌∷◌, Option, none, some, str_eq, if◌then◌else◌,
}
use orion_auth_backend.Model.{User, OauthClient}
use orion_auth_backend.Oauth.Modify.{
  Value, flag, int, text, array, object, Values, nil, cons, Fields, end, field,
}
use orion_auth_backend.Oauth.Service.{
  PolicyInput, login, mfa, consent, refresh, token_issuance, device_approval, introspect,
}

-- What the builders read from time.Now(), with the text of a UUID.
pub record Clock : Type 0 where
  pub hour : ℕ
  pub weekday : String
  pub weekday_n : ℕ
  pub unix : ℕ
  pub uuid_text : ℕ → String

-- A []string; nil and the empty slice are one list here.
abbrev string_values : List String → Values
string_values [] = nil
string_values (s ∷ list) = cons (text s) (string_values list)

abbrev pub string_list : List String → Value
string_list list = array (string_values list)

module _ (clock : Clock) where
  unfoldable pub time_fields : Fields
  time_fields = field "hour" (int clock.hour) (
      field "weekday" (text clock.weekday)
        (field "weekday_n" (int clock.weekday_n) (field "unix" (int clock.unix) end)))

  -- userFieldsWithRoles
  unfoldable pub user_fields : User → (roles permissions : List String) → Fields
  user_fields u roles permissions = field "id" (text (clock.uuid_text u.id)) (
      field "email" (text u.email) (
        field "email_verified" (flag u.email_verified) (
          field "active" (flag u.active) (
            field "roles" (string_list roles)
              (field "permissions" (string_list permissions) end)))))

  unfoldable pub client_fields : OauthClient → Fields
  client_fields c = field "id" (text (clock.uuid_text c.id)) (
      field "name" (text c.name)
        (field "is_public" (flag c.is_public) (field "is_first_party" (flag c.is_first_party) end)))

  -- `if c != nil { input["client"] = … }`
  abbrev with_client : Option OauthClient → Fields → Fields
  with_client none input = input
  with_client (some c) input = field "client" (object (client_fields c)) input

  abbrev with_user : Option User → (roles permissions : List String) → Fields → Fields
  with_user none roles permissions input = input
  with_user (some u) roles permissions input =
      field "user" (object (user_fields u roles permissions)) input

  -- the fields that end every input
  abbrev request_fields : (ip agent : String) → Fields
  request_fields ip agent =
      field "ip_address" (text ip)
        (field "user_agent" (text agent) (field "time" (object time_fields) end))

  abbrev bare_fields : (ip : String) → Fields
  bare_fields ip = field "ip_address" (text ip) (field "time" (object time_fields) end)

  unfoldable pub build_login_input :
      User → Option OauthClient → (roles permissions : List String) → (ip agent : String) → Fields
  unfolding user_fields client_fields time_fields
  build_login_input u c roles permissions ip agent =
      with_client c
        (field "user" (object (user_fields u roles permissions)) (request_fields ip agent))

  unfoldable pub build_token_issuance_input :
      OauthClient → Option User → (roles permissions scopes : List String) → (ip : String) → Fields
  unfolding user_fields client_fields time_fields
  build_token_issuance_input c u roles permissions scopes ip = with_user u roles permissions (
      field "client" (object (client_fields c))
        (field "scopes" (string_list scopes) (bare_fields ip)))

  unfoldable pub build_refresh_input :
      Option User
      → OauthClient
      → (roles permissions requested granted : List String) → (session ip : String) → Fields
  unfolding user_fields client_fields time_fields
  build_refresh_input u c roles permissions requested granted session ip =
      with_user u roles permissions (
        field "client" (object (client_fields c)) (
          field "scopes_requested" (string_list requested) (
            field "scopes_granted" (string_list granted)
              (field "session_id" (text session) (bare_fields ip)))))

  unfoldable pub build_consent_input :
      User
      → OauthClient
      → (roles permissions requested granted : List String) → (ip agent : String) → Fields
  unfolding user_fields client_fields time_fields
  build_consent_input u c roles permissions requested granted ip agent =
      field "user" (object (user_fields u roles permissions)) (
        field "client" (object (client_fields c)) (
          field "scopes_requested" (string_list requested)
            (field "scopes_granted" (string_list granted) (request_fields ip agent))))

  unfoldable pub build_mfa_input :
      User
      → Option OauthClient
      → (roles permissions scopes : List String) → Bool
      → (ip agent : String) → Fields
  unfolding user_fields client_fields time_fields
  build_mfa_input u c roles permissions scopes has_mfa ip agent = with_client c (
      field "user" (object (user_fields u roles permissions)) (
        field "scopes" (string_list scopes)
          (field "has_mfa" (flag has_mfa) (request_fields ip agent))))

  unfoldable pub build_device_approval_input :
      User
      → Option OauthClient
      → (roles permissions scopes : List String) → (user_code ip agent : String) → Fields
  unfolding user_fields client_fields time_fields
  build_device_approval_input u c roles permissions scopes user_code ip agent = with_client c (
      field "user" (object (user_fields u roles permissions)) (
        field "scopes" (string_list scopes)
          (field "user_code" (text user_code) (request_fields ip agent))))

  -- `if tokenUserID != ""` and `if audience != nil`
  abbrev with_text : String → Option String → Fields → Fields
  with_text key none token = token
  with_text key (some s) token = field key (text s) token

  unfoldable pub build_introspect_input :
      (kind client_id user_id : String)
      → List String
      → Option String
      → (requester ip : String) → Fields
  unfolding time_fields
  build_introspect_input kind client_id user_id scopes audience requester ip =
      let named = if str_eq user_id "" then none else some user_id in
      field "token"
        (object (
          with_text "user_id" named (
            with_text "audience" audience (
              field "type" (text kind)
                (field "client_id" (text client_id) (field "scopes" (string_list scopes) end))))))
        (field "requesting_client" (object (field "id" (text requester) end)) (bare_fields ip))

  unfoldable pub build_client_auth_input :
      OauthClient → (auth_method method path ip agent : String) → Fields
  unfolding client_fields time_fields
  build_client_auth_input c auth_method method path ip agent =
      field "client" (object (client_fields c)) (
        field "auth_method" (text auth_method) (
          field "request" (object (field "method" (text method) (field "path" (text path) end)))
            (request_fields ip agent)))

  unfoldable pub build_account_action_input :
      User
      → (roles permissions : List String) → String
      → (has_mfa has_passkey : Bool) → ℕ
      → (ip agent : String) → Fields
  unfolding user_fields time_fields
  build_account_action_input u roles permissions action has_mfa has_passkey age_days ip agent =
      field "user" (object (user_fields u roles permissions)) (
        field "action" (text action) (
          field "has_mfa" (flag has_mfa) (
            field "has_passkey" (flag has_passkey)
              (field "account_age_days" (int age_days) (request_fields ip agent)))))

  unfoldable pub build_admin_api_input :
      ℕ → (permissions : List String) → (method path ip : String) → Fields
  unfolding time_fields
  build_admin_api_input user permissions method path ip =
      field "user"
        (object (
          field "id" (text (clock.uuid_text user))
            (field "permissions" (string_list permissions) end)))
        (field "request" (object (field "method" (text method) (field "path" (text path) end)))
          (bare_fields ip))

  abbrev user_text : Option ℕ → String
  user_text none = ""
  user_text (some user) = clock.uuid_text user

  -- The policy type that oauth/ names beside each input, and the map that it builds.
  unfoldable pub typed_input : PolicyInput → String × Fields
  unfolding build_login_input build_mfa_input build_consent_input build_refresh_input
      build_token_issuance_input build_device_approval_input build_introspect_input
  typed_input (login u c roles perms ip agent) =
      ("login", build_login_input u (some c) roles perms ip agent)
  typed_input (mfa u c roles perms scopes has_mfa ip agent) =
      ("mfa", build_mfa_input u (some c) roles perms scopes has_mfa ip agent)
  typed_input (consent u c roles perms requested granted ip agent) =
      ("consent", build_consent_input u c roles perms requested granted ip agent)
  typed_input (refresh u c roles perms requested granted session) = (
    "refresh",
    build_refresh_input u c roles perms requested granted (clock.uuid_text session) "",
  )
  typed_input (token_issuance c u roles perms scopes) =
      ("token_issuance", build_token_issuance_input c u roles perms scopes "")
  typed_input (device_approval u c roles perms scopes code ip agent) =
      ("device_approval", build_device_approval_input u c roles perms scopes code ip agent)
  typed_input (introspect kind client user scopes audience requester) = (
    "introspect",
    build_introspect_input kind (clock.uuid_text client) (user_text user) scopes audience
        (clock.uuid_text requester) "",
  )
