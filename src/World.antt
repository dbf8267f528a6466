-- ===== src/World.antt =====
-- What the services take from outside the repository: the clocks, the digests, the random
-- generator and the failures of the database driver.
use orion_auth_backend.Prelude.{ℕ, ◌+◌, String, ◌≡◌, Bool, true, false, Option, none, some}
use orion_auth_backend.Errors.{Error}
use orion_auth_backend.Exec.{Result, ok, err, Exec}
use orion_auth_backend.Model.{State, Database}

-- The repository methods. `breaks` of a method is whether the driver reports an error for it.
pub data Op : Type 0 where
  find_client find_user find_auth_request create_auth_request update_auth_request : Op
  delete_auth_request create_auth_code find_auth_code mark_auth_code_used : Op
  create_access_token find_access_token revoke_access_token : Op
  revoke_access_tokens_by_refresh_token revoke_access_tokens_by_session : Op
  create_refresh_token find_refresh_token rotate_refresh_token : Op
  revoke_refresh_token_family revoke_refresh_tokens_by_session : Op
  find_active_consent create_consent update_consent : Op
  create_device_code find_device_code find_device_code_by_user_code update_device_code : Op
  poll_device_code consume_device_code : Op
  is_jti_revoked revoke_jti : Op
  create_session find_session find_session_by_cookie find_sessions revoke_session : Op
  revoke_sessions : Op
  find_mfa_by_type find_mfa update_mfa create_mfa delete_mfa : Op
  create_reauth find_reauth mark_reauth_used delete_reauth delete_expired_reauth : Op
  find_policy find_policy_by_name create_policy update_policy delete_policy list_policies : Op
  create_par find_par delete_par find_setting save_setting : Op
  find_user_by_email create_user update_user_fields find_user_by_reset find_user_by_verify : Op

-- `now` is the injected clock, `wall` is time.Now(); both are one clock in production.
pub record World : Type 0 where
  pub now : ℕ
  pub wall : ℕ
  -- hex of SHA-256
  pub hash_token : String → String
  -- base64url of SHA-256, and of its first 16 bytes
  pub s256 : String → String
  pub left_half : String → String
  -- The values that the random generator yields, none when it fails.
  pub random : ℕ → Option String
  pub uuid : ℕ → Option ℕ
  -- rand.Int at a draw, below a bound
  pub index : (draw bound : ℕ) → Option ℕ
  pub breaks : Op → Bool
  -- The tables after a gorm transaction, from whether its body returned no error, the tables
  -- before it and those that the body left.
  pub after_transaction : Bool → Database → Database → Database
  pub commits : (before after : Database) → after_transaction true before after ≡ after
  pub rolls_back : (before after : Database) → after_transaction false before after ≡ before

abbrev pub second : ℕ
second = 1000000000

abbrev drawn {ℓ} : {A : Type ℓ} → Error → Option A → Result A
drawn e none = err e
drawn e (some a) = ok a

module _ (w : World) where
  -- crypto.GenerateOpaqueToken and GenerateRandomString, with the error of the caller.
  unfoldable pub generate : Error → Exec State String
  generate e s = (drawn e (w.random s.draws), record s { draws = s.draws + 1 })

  -- uuid.NewV7
  unfoldable pub new_uuid : Error → Exec State ℕ
  new_uuid e s = (drawn e (w.uuid s.draws), record s { draws = s.draws + 1 })
