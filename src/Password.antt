-- ===== src/Password.antt =====
-- password/policy.go, password/validator.go and password/service.go: the policy of passwords, its
-- storage and its rules.
pub mod Bounds
pub mod Stored
use Prim.Native.Char.{Char}
use Prim.Native.String
use orion_auth_backend.Prelude.{
  ℕ, String, ◌≡◌, ◌≢◌, Bool, true, false, not, ◌&&◌, ◌||◌, List, [], ◌∷◌, ◌++◌, Option, none, some,
  ℤ, pos, negsuc, ltb_ℤ, ◌==◌, str_eq, if◌then◌else◌,
}
use orion_auth_backend.Errors.{bad_request, database}
use orion_auth_backend.Exec.{Result, ok, err}
use orion_auth_backend.Text.{Unicode, byte_length, trim_space}

-- The Policy of password/policy.go.
pub record PasswordPolicy : Type 0 where
  pub min_length : ℤ
  pub max_length : ℤ
  pub require_upper : Bool
  pub require_lower : Bool
  pub require_digit : Bool
  pub require_symbol : Bool
  pub min_score : ℤ

abbrev pub default_policy : PasswordPolicy
default_policy = record {
  min_length = pos 8;
  max_length = pos 128;
  require_upper = false;
  require_lower = false;
  require_digit = false;
  require_symbol = false;
  min_score = pos 0;
}

abbrev pub at_least : ℤ → ℤ → ℤ
at_least low n = if ltb_ℤ n low then low else n

abbrev pub at_most : ℤ → ℤ → ℤ
at_most high n = if ltb_ℤ high n then high else n

abbrev pub is_zero : ℤ → Bool
is_zero (pos n) = n == 0
is_zero (negsuc n) = false

-- `if p.MaxLength != 0 && p.MaxLength < p.MinLength`
abbrev pub raised : ℤ → ℤ → ℤ
raised low high = if not (is_zero high) && ltb_ℤ high low then low else high

unfoldable pub normalize : PasswordPolicy → PasswordPolicy
normalize p =
    let low = at_most (pos 256) (at_least (pos 1) p.min_length) in
    record p {
      min_length = low;
      max_length = at_most (pos 512) (raised low p.max_length);
      min_score = at_most (pos 4) (at_least (pos 0) p.min_score);
    }

-- What classify finds in a password.
pub record Classes : Type 0 where
  pub upper : Bool
  pub lower : Bool
  pub digit : Bool
  pub symbol : Bool

-- One message of the joined error.
pub data Problem : Type 0 where
  too_short too_long too_weak : ℤ → Problem
  no_upper no_lower no_digit no_symbol : Problem

-- `if … { problems = append(problems, …) }` for each rule, by its failure
abbrev pub failing : List (Bool × Problem) → List Problem
failing [] = []
failing ((fails, p) ∷ rules) = let rest = failing rules in if fails then p ∷ rest else rest

module _ (unicode : Unicode) where
  -- the switch: the first case that holds
  abbrev classify_one : Char → Classes → Classes
  classify_one c rest =
      if unicode.is_upper c
      then record rest { upper = true }
      else if unicode.is_lower c
      then record rest { lower = true }
      else if unicode.is_digit c
      then record rest { digit = true }
      else if unicode.is_punct c || unicode.is_symbol c || unicode.is_space c
      then record rest { symbol = true }
      else rest

  unfoldable pub classify : String → Classes
  classify String.[] = record { upper = false; lower = false; digit = false; symbol = false }
  classify (String.◌∷◌ c s) = let rest = classify s in classify_one c rest

  -- sanitizeInputs
  unfoldable pub sanitize_inputs : List String → List String
  unfolding trim_space
  sanitize_inputs [] = []
  sanitize_inputs (s ∷ inputs) =
      let rest = sanitize_inputs inputs in
      let trimmed = trim_space unicode s in if str_eq trimmed "" then rest else trimmed ∷ rest

  -- `strength` is the score of zxcvbn.PasswordStrength.
  module _ (strength : String → List String → ℤ) where
    -- the rules in the order of their messages, each by its failure
    unfoldable pub rules : PasswordPolicy → String → List String → List (Bool × Problem)
    unfolding byte_length classify sanitize_inputs
    rules p password inputs =
        let length = pos (byte_length password) in
        let has = classify password in
        let score = strength password (sanitize_inputs inputs) in
        (ltb_ℤ length p.min_length, too_short p.min_length)
        ∷ (ltb_ℤ (pos 0) p.max_length && ltb_ℤ p.max_length length, too_long p.max_length)
        ∷ (p.require_upper && not has.upper, no_upper)
        ∷ (p.require_lower && not has.lower, no_lower)
        ∷ (p.require_digit && not has.digit, no_digit)
        ∷ (p.require_symbol && not has.symbol, no_symbol)
        ∷ (
          ltb_ℤ (pos 0) p.min_score && ltb_ℤ (pos 0) length && ltb_ℤ score p.min_score,
          too_weak p.min_score,
        )
        ∷ []

    unfoldable pub problems : PasswordPolicy → String → List String → List Problem
    unfolding rules
    problems p password inputs = failing (rules p password inputs)

    abbrev pub verdict : List Problem → Result {0} Unit
    verdict [] = ok tt
    verdict (p ∷ ps) = err (bad_request "password")

    abbrev pub policy_in_force : Option PasswordPolicy → PasswordPolicy
    policy_in_force none = default_policy
    policy_in_force (some p) = normalize p

    -- Validate, with what the provider gives, when there is one
    unfoldable pub validate : Option PasswordPolicy → String → List String → Result {0} Unit
    unfolding normalize problems
    validate provided password inputs =
        verdict (problems (policy_in_force provided) password inputs)
