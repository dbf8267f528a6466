-- ===== src/Tests/Stepup.antt =====
-- One-time passwords, backup codes and reauthentication on sample rows.
use orion_auth_backend.Prelude.{
  ◌≤◌, ◌<◌, String, ◌≡◌, ◌≢◌, refl, Bool, true, false, List, [], ◌∷◌, none, some, arith, first,
  str_eq,
}
use orion_auth_backend.Errors.{unauthorized}
use orion_auth_backend.Exec.{ok, err, ◌>>=◌}
use orion_auth_backend.Model.{State, pending, MfaMethod, ReauthToken}
use orion_auth_backend.World.{World}
use orion_auth_backend.World
use orion_auth_backend.Mfa
use orion_auth_backend.Mfa.{Totp, validate_code, verify as confirm}
use orion_auth_backend.Mfa.Replay.{one_totp_per_step, code_accepted_again, is_method_of}
use orion_auth_backend.Reauth.{verify, consume}
use orion_auth_backend.Reauth.Laws.{consumed_never_verifies}
use orion_auth_backend.Tests.Sample.{sample_world, tables_at}

-- One minute, a minute and a half, and two hours after the epoch.
abbrev at_minute : World
at_minute = record sample_world { now = 60000000000; wall = 60000000000 }

abbrev same_step : World
same_step = record sample_world { now = 89000000000; wall = 89000000000 }

abbrev next_step : World
next_step = record sample_world { now = 90000000000; wall = 90000000000 }

-- The only code is the secret itself.
abbrev plain_totp : Totp
plain_totp = record {
  validate = λ wall code secret. str_eq code secret;
  generate_key = λ draw account. some ("secret", "otpauth://totp");
}

abbrev sample_method : Bool → MfaMethod
sample_method verified = record {
  id = 9;
  user_id = 3;
  kind = "totp";
  secret = "secret";
  verified = verified;
  backup_codes = "backup" ∷ "spare" ∷ [];
  last_used_totp_step = 1;
}

abbrev sample_token : ReauthToken
sample_token = record {
  id = "proof";
  user_id = 3;
  session_id = 5;
  method = "password";
  expires_at = 900;
  used = false;
  used_at = none;
  consumed_by = none;
}

abbrev rows : Bool → State
rows verified = record (tables_at pending) {
  db = record (tables_at pending).db {
    mfa_methods = sample_method verified ∷ [];
    reauth_tokens = sample_token ∷ [];
  };
}

method_found : first (is_method_of 3) (rows true).mfa_methods ≡ some (sample_method true)
unfolding first
method_found = refl

abbrev after_totp : State
after_totp = (validate_code at_minute plain_totp 3 "secret" (rows true)).1

totp_accepted : validate_code at_minute plain_totp 3 "secret" (rows true) ≡ (ok true, after_totp)
unfolding validate_code first
totp_accepted = refl

not_later : 2 ≤ 2
not_later = ground arith

one_totp_per_step_example :
    (validate_code same_step plain_totp 3 "secret" after_totp).0
    ≡ err (unauthorized "TOTP code already used; wait for the next code")
one_totp_per_step_example =
    one_totp_per_step at_minute same_step plain_totp 3 "secret" "secret" (sample_method true)
      (rows true) after_totp refl refl method_found refl refl not_later totp_accepted

after_last : 1 < 2
after_last = ground arith

one_later : 2 < 3
one_later = ground arith

code_accepted_again_example :
    ((validate_code at_minute plain_totp 3 "secret" (rows true)).0 ≡ ok true)
    × ((validate_code next_step plain_totp 3 "secret"
          (validate_code at_minute plain_totp 3 "secret" (rows true)).1).0
        ≡ ok true)
code_accepted_again_example =
    code_accepted_again at_minute next_step plain_totp 3 "secret" (sample_method true) (rows true)
      refl refl refl refl method_found refl refl after_last one_later

abbrev confirmed : State
confirmed = (confirm at_minute plain_totp 3 "secret" (rows false)).1

abbrev new_codes : List String
new_codes =
    "first" ∷ "second" ∷ "third" ∷ "other" ∷ "other" ∷ "other" ∷ "other" ∷ "other" ∷ "other"
    ∷ "other" ∷ []

user_confirms : confirm at_minute plain_totp 3 "secret" (rows false) ≡ (ok new_codes, confirmed)
unfolding confirm ◌>>=◌ Mfa.find_by_user_and_type first Mfa.generate_codes World.generate
    Mfa.update_method orion_auth_backend.Prelude.save_row orion_auth_backend.Prelude.any
    orion_auth_backend.Prelude.update_where
user_confirms = refl

token_consumed : (consume sample_world "proof" "delete" (rows true)).0 ≡ ok tt
unfolding consume
token_consumed = refl

consumed_never_verifies_example :
    (verify sample_world "proof" 3 5 (consume sample_world "proof" "delete" (rows true)).1).0
    ≢ ok (some sample_token)
consumed_never_verifies_example =
    consumed_never_verifies sample_world "proof" 3 5 "delete" (rows true) sample_token
      token_consumed
