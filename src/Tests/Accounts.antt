-- ===== src/Tests/Accounts.antt =====
-- A user who logs in, is locked out and resets her password, and the policy of passwords.
use Prim.Native.Char.{code}
use orion_auth_backend.Prelude.{
  ℕ, String, ◌≡◌, ◌≢◌, refl, Bool, true, false, ◌||◌, List, [], ◌∷◌, Option, none, some, ℤ, pos,
  negsuc, leb, ◌≤◌, ◌==◌, str_eq, eq_refl, arith, ap, sym, ◌∙◌,
}
use orion_auth_backend.Exec.{ok, err, ◌>>=◌}
use orion_auth_backend.Model.{User, State, pending}
use orion_auth_backend.Oauth.Service.{LoginInput}
use orion_auth_backend.Text.{Unicode, byte_length}
use orion_auth_backend.Password.{PasswordPolicy, validate, policy_in_force, is_zero}
use orion_auth_backend.Password.Bounds.{Satisfies, validate-Satisfies}
use orion_auth_backend.Users
use orion_auth_backend.Users.{
  Accounts, ResetPasswordInput, authenticate, reset_password, reset_to, no_failures,
}
use orion_auth_backend.Users.Login.{IsAuthentic, authenticate-IsAuthentic}
use orion_auth_backend.Users.Lockout.{
  IsGuessed, login_with, locked_error, tries, brute_force_stopped,
}
use orion_auth_backend.Users.Reset.{reset_password-authenticate, reset_token_spent}
use orion_auth_backend.Oauth.Modify.{end}
use orion_auth_backend.Oauth.Service.{RegisterInput}
use orion_auth_backend.Oauth.Repository
use orion_auth_backend.Users.Signup
use orion_auth_backend.Users.Signup.{Signups, new_user, register, consume_verification_token}
use orion_auth_backend.Users.Signup.Registered.{IsRegistered, register-IsRegistered}
use orion_auth_backend.Users.Signup.Verification.{IsVerified, consume_verification_token-IsVerified}
use orion_auth_backend.Oauth.Login.{authorize_login}
use orion_auth_backend.Oauth.Login.Factors.{LeavesLogin}
use orion_auth_backend.Users.Signup.Collaborator.{user_service}
use orion_auth_backend.Users.Signup.Endpoint.{with_users, authorize_login-IsAuthentic}
use orion_auth_backend.Tests.Links.{sample_links}
use orion_auth_backend.Tests.Logins.{started, ada_logs_in as ada_at_client, no_more_steps}
use orion_auth_backend.Tests.Sample.{sample_service, sample_world, ada, tables_at}

-- The classes of some code points.
abbrev plain_text : Unicode
plain_text = record {
  is_upper = λ c. code c == 65;
  is_lower = λ c. leb 97 (code c);
  is_digit = λ c. code c == 49;
  is_punct = λ c. false;
  is_symbol = λ c. code c == 43;
  is_space = λ c. code c == 32;
  to_lower = λ c. c;
}

some_inj : (s t : String) → some s ≡ some t → s ≡ t
some_inj s t e = cc

abbrev said : Bool → Option (Bool × Bool)
said match = some (match, false)

-- A hash is its password.
own_password :
    (draw : ℕ) (password hash : String)
    → some password ≡ some hash
    → ◌≡◌ {A = Option (Bool × Bool)} (some (str_eq password hash, false)) (some (true, false))
own_password draw password hash e =
    ap (λ (h : String). said (str_eq password h)) (sym (some_inj password hash e))
    ∙ ap said (eq_refl password)

abbrev sample_accounts : Accounts
sample_accounts = record {
  world = sample_world;
  unicode = plain_text;
  password_policy = none;
  strength = λ password inputs. pos 4;
  verify_identify = λ password hash. said (str_eq password hash);
  hash_password = λ draw password. some password;
  verifies_own = own_password;
  max_fail_attempts = pos 2;
  lockout_duration = 50;
  email_verify_gate = none;
}

abbrev tables : State
tables = tables_at pending

abbrev ada_logs_in : LoginInput
ada_logs_in = record { email = " ada@example.com"; password = "secret" }

ada_is_let_in : authenticate sample_accounts ada_logs_in tables ≡ (ok ada, tables)
unfolding authenticate ◌>>=◌ Users.user_by_email orion_auth_backend.Prelude.first
    Users.normalize_email Users.check_password Users.admit_user Users.maybe_rehash
ada_is_let_in = refl

authenticate-IsAuthentic_example : IsAuthentic sample_accounts ada_logs_in tables ada
authenticate-IsAuthentic_example =
    authenticate-IsAuthentic sample_accounts ada_logs_in tables tables ada ada_is_let_in

abbrev guesses : List String
guesses = "guess" ∷ "other guess" ∷ []

guessed : IsGuessed sample_accounts "ada@example.com" guesses ada
guessed = record {
  active = refl;
  hash = "secret";
  has_password = refl;
  all_wrong = (refl, (refl, tt));
}

ada_found :
    orion_auth_backend.Users.Lockout.row_of sample_accounts "ada@example.com" tables ≡ some ada
unfolding orion_auth_backend.Prelude.first Users.normalize_email
ada_found = refl

brute_force_stopped_example :
    authenticate sample_accounts
      (login_with sample_accounts "ada@example.com" "secret")
      (tries sample_accounts "ada@example.com" guesses tables)
    ≡ (err locked_error, tries sample_accounts "ada@example.com" guesses tables)
brute_force_stopped_example =
    brute_force_stopped sample_accounts "ada@example.com" refl refl (ground arith) guesses "secret"
      tables ada ada_found guessed refl (ground arith) refl

abbrev resetting : User
resetting = record ada {
  password_reset_token = some "token";
  password_reset_expires_at = some 500;
  locked_until = some 900;
  failed_login_attempts = 7;
}

abbrev reset_tables : State
reset_tables = record tables { db = record tables.db { users = resetting ∷ [] } }

abbrev new_password : ResetPasswordInput
new_password = record { token = "token"; new_password = "new secret" }

abbrev after_reset : State
after_reset = (reset_password sample_accounts new_password reset_tables).1

reset_returns : reset_password sample_accounts new_password reset_tables ≡ (ok tt, after_reset)
unfolding reset_password ◌>>=◌ validate Users.user_by_reset_token orion_auth_backend.Prelude.first
    Users.hash Users.update_fields
reset_returns = refl

token_found :
    orion_auth_backend.Prelude.first
      (orion_auth_backend.Users.resets_with sample_accounts "token")
      reset_tables.users
    ≡ some resetting
unfolding orion_auth_backend.Prelude.first
token_found = refl

address_found :
    orion_auth_backend.Prelude.first
      (λ (r : User).
        str_eq r.email (orion_auth_backend.Users.normalize_email sample_accounts "ada@example.com"))
      reset_tables.users
    ≡ some resetting
unfolding orion_auth_backend.Prelude.first Users.normalize_email
address_found = refl

reset_password-authenticate_example :
    (h : String) × (authenticate sample_accounts
        (record { email = "ada@example.com"; password = "new secret" })
        after_reset
      ≡ (ok (reset_to sample_accounts h resetting), after_reset))
reset_password-authenticate_example =
    reset_password-authenticate sample_accounts new_password "ada@example.com" reset_tables
      after_reset resetting reset_returns token_found address_found refl refl refl

reset_token_spent_example :
    (reset_password sample_accounts
      (record { token = "token"; new_password = "third secret" })
      after_reset).0
    ≢ ok tt
reset_token_spent_example =
    reset_token_spent sample_accounts new_password "third secret" reset_tables after_reset resetting
      reset_returns token_found (refl, tt)

abbrev score_four : String → List String → ℤ
score_four password inputs = pos 4

abbrev strict : PasswordPolicy
strict = record {
  min_length = negsuc 4;
  max_length = pos 12;
  require_upper = true;
  require_lower = true;
  require_digit = true;
  require_symbol = false;
  min_score = pos 9;
}

strict_accepted : validate plain_text score_four (some strict) "A1secret" (" " ∷ []) ≡ ok tt
unfolding validate
strict_accepted = refl

validate-Satisfies_example :
    Satisfies plain_text score_four
      (policy_in_force plain_text score_four (some strict))
      "A1secret"
      (" " ∷ [])
    × (1 ≤ byte_length "A1secret")
    × ((is_zero (policy_in_force plain_text score_four (some strict)).max_length
          || leb (byte_length "A1secret") 512)
        ≡ true)
validate-Satisfies_example =
    validate-Satisfies plain_text score_four (some strict) "A1secret" (" " ∷ []) strict_accepted

abbrev sample_signups : Signups
sample_signups = record {
  accounts = sample_accounts;
  apply_reg_form = none;
  assign_default_role = some (λ user. ok tt);
  action_tokens = some sample_links;
  email_sender = some (λ email token. ok tt);
  reset_sender = none;
  uuid_text = λ n. "jti";
}

abbrev signs_up : RegisterInput
signs_up = record {
  email = "bea@example.com";
  password = "long enough";
  display_name = none;
  extra_fields = end;
  skip_verification_email = true;
}

abbrev bea : User
bea = record (new_user sample_signups signs_up "bea@example.com" "long enough") { id = 1001 }

abbrev signed_up : State
signed_up = (register sample_signups signs_up tables).1

bea_registered : register sample_signups signs_up tables ≡ (ok bea, signed_up)
unfolding register ◌>>=◌ validate Users.user_by_email orion_auth_backend.Prelude.first
    Users.normalize_email Users.hash Signup.apply_reg_form_extras Repository.transaction
    Signup.create_with_role Signup.insert_user orion_auth_backend.Prelude.any
bea_registered = refl

register-IsRegistered_example : IsRegistered sample_signups signs_up tables signed_up bea
register-IsRegistered_example =
    register-IsRegistered sample_signups signs_up tables signed_up bea refl bea_registered

abbrev unverified : User
unverified = record ada {
  email_verified = false;
  email_verify_token = some "jti";
  email_verify_expires_at = some 500;
}

abbrev unverified_tables : State
unverified_tables = record tables { db = record tables.db { users = unverified ∷ [] } }

abbrev verified_tables : State
verified_tables = (consume_verification_token sample_signups "signed" unverified_tables).1

link_consumed :
    consume_verification_token sample_signups "signed" unverified_tables
    ≡ (ok (unverified, none), verified_tables)
unfolding consume_verification_token ◌>>=◌ orion_auth_backend.ActionToken.parse
    orion_auth_backend.Prelude.contains Signup.user_by_verify_token orion_auth_backend.Prelude.first
    Users.update_fields
link_consumed = refl

consume_verification_token-IsVerified_example :
    IsVerified sample_signups "signed" unverified_tables verified_tables unverified
consume_verification_token-IsVerified_example =
    consume_verification_token-IsVerified sample_signups "signed" unverified_tables verified_tables
      unverified none link_consumed

abbrev logged_in : State
logged_in =
    (authorize_login (with_users sample_signups sample_service) ada_at_client "::1" "browser"
      started).1

login_returns :
    authorize_login (with_users sample_signups sample_service) ada_at_client "::1" "browser" started
    ≡ (ok no_more_steps, logged_in)
unfolding authorize_login ◌>>=◌ orion_auth_backend.Prelude.first orion_auth_backend.Prelude.any
    orion_auth_backend.Oauth.Start.Init.init_authorize
    orion_auth_backend.Oauth.Scopes.is_valid_response_type orion_auth_backend.Model.has_redirect_uri
    orion_auth_backend.Model.has_grant_type orion_auth_backend.Oauth.Params.read_max_age
    orion_auth_backend.Oauth.Start.grant_scopes orion_auth_backend.Model.keep_registered
    orion_auth_backend.Model.has_scope orion_auth_backend.Oauth.Start.Init.start
    orion_auth_backend.Oauth.Start.Init.ask_for_login
    orion_auth_backend.Oauth.Repository.Flow.insert_auth_request
    orion_auth_backend.Oauth.Login.open_request orion_auth_backend.Oauth.Login.admit
    orion_auth_backend.Oauth.Login.has_mfa_or_false orion_auth_backend.Oauth.Login.login_policy
    orion_auth_backend.Oauth.Login.mfa_policy orion_auth_backend.Oauth.Login.mfa_verdict
    orion_auth_backend.Oauth.Login.save_step
    orion_auth_backend.Oauth.Repository.Flow.save_auth_request
    orion_auth_backend.Oauth.Repository.Flow.active_consent
    orion_auth_backend.Oauth.Repository.client_by_id orion_auth_backend.Prelude.update_where
    orion_auth_backend.Oauth.Repository.Flow.auth_request_by_id orion_auth_backend.World.new_uuid
    orion_auth_backend.Oauth.Login.live_request orion_auth_backend.Oauth.Service.consult
    orion_auth_backend.Users.Signup.Collaborator.user_service orion_auth_backend.Users.authenticate
    orion_auth_backend.Users.user_by_email orion_auth_backend.Users.check_password
    orion_auth_backend.Users.admit_user orion_auth_backend.Users.maybe_rehash
    orion_auth_backend.Users.normalize_email orion_auth_backend.Prelude.save_row
login_returns = refl

authorize_login-IsAuthentic_example :
    (user : User) × IsAuthentic sample_accounts
      (record { email = "ada@example.com"; password = "secret" })
      started
      user
    × LeavesLogin (with_users sample_signups sample_service) 1000 logged_in user.id no_more_steps
authorize_login-IsAuthentic_example =
    authorize_login-IsAuthentic sample_signups sample_service ada_at_client "::1" "browser" started
      logged_in no_more_steps login_returns
