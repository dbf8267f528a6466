-- ===== src/Policy/Gates.antt =====
-- The policy engine as the rest of the program meets it: policy/adapter.go, the gate of the admin
-- API in policy/middleware.go and the gate of the account API in account/policy.go.
use orion_auth_backend.Prelude.{
  ℕ, String, ◌≡◌, refl, ap, ◌∙◌, Bool, true, List, Option, none, some, inl, inr, arith, first, All,
  Option-cases, if◌then◌else◌,
}
use orion_auth_backend.Errors.{Error, unauthorized, internal_error, forbidden}
use orion_auth_backend.Exec.{Result, ok, err, Result-cases}
use orion_auth_backend.Model.{User}
use orion_auth_backend.Oauth.Modify.{Fields, end}
use orion_auth_backend.Oauth.Service.{PolicyResult, PolicyInput, consult, or_empty, no_error}
use orion_auth_backend.Policy.Engine.{
  PreparedPolicy, Opa, Engine, EvalResult, Denial, broken, passes, denies, denial, allowed, denied,
  after, evaluate,
}
use orion_auth_backend.Policy.Engine.Verdict.{
  stops, by_stop, collect_all, evaluate-by_stop, evaluate_allows-All,
}
use orion_auth_backend.Policy.Inputs.{
  Clock, typed_input, build_admin_api_input, build_account_action_input,
}

abbrev pub as_policy_result : EvalResult → PolicyResult
as_policy_result r = record { deny = r.deny; deny_reason = r.deny_reason; modify = r.modify }

abbrev projected : Result EvalResult → Result (Option PolicyResult)
projected (ok r) = ok (some (as_policy_result r))
projected (err e) = err e

-- account.PolicyEvaluator, through AccountAdapter: the denial and its reason
abbrev deny_part : Result EvalResult → Result (Bool × String)
deny_part (ok r) = ok (r.deny, r.deny_reason)
deny_part (err e) = err e

-- What the account gate knows of the caller; a failed look-up of MFA or of a passkey reads false.
pub record Caller : Type 0 where
  pub found_user : Option User
  pub role_names : Result (List String)
  pub permissions : Result (List String)
  pub has_mfa : Bool
  pub has_passkey : Bool
  pub age_days : ℕ

module _ (opa : Opa) (clock : Clock) (e : Engine) where
  -- OAuthAdapter.Evaluate on the input that oauth/ builds
  unfoldable pub oauth_evaluate : PolicyInput → Result (Option PolicyResult)
  oauth_evaluate input =
      let (kind, fields) = typed_input clock input in projected (evaluate opa e kind fields)

  -- DeciderAdapter and AccountAdapter
  unfoldable pub decide : String → Fields → Result (Bool × String)
  decide kind input = deny_part (evaluate opa e kind input)

  abbrev admit : Result (Bool × String) → Result {0} Unit
  admit (err _) = err (internal_error "authorization policy unavailable")
  admit (ok (deny, reason)) = if deny then err (forbidden reason) else ok tt

  abbrev admin_verdict : ℕ → (method path ip : String) → Result (List String) → Result {0} Unit
  admin_verdict user method path ip (err _) = err (internal_error "authorization check unavailable")
  admin_verdict user method path ip (ok permissions) =
      admit (decide "admin_api" (build_admin_api_input clock user permissions method path ip))

  -- RequirePolicy: ok is c.Next(), an error is the response of an aborted request.
  unfoldable pub require_policy :
      (permissions_of : ℕ → Result (List String))
      → Option ℕ
      → (method path ip : String) → Result {0} Unit
  unfolding decide
  require_policy permissions_of none method path ip =
      err (unauthorized "admin policy gate requires an authenticated user")
  require_policy permissions_of (some user) method path ip =
      admin_verdict user method path ip (permissions_of user)

  abbrev let_through : Result (Bool × String) → Result {0} Unit
  let_through (err _) = ok tt
  let_through (ok (deny, reason)) = if deny then err (forbidden reason) else ok tt

  abbrev account_verdict : Caller → Option User → (action ip agent : String) → Result {0} Unit
  account_verdict caller none action ip agent = ok tt
  account_verdict caller (some u) action ip agent = let_through (
      decide "account_action" (
        build_account_action_input clock u (or_empty caller.role_names)
          (or_empty caller.permissions) action caller.has_mfa caller.has_passkey caller.age_days ip
          agent))

  -- PolicyGate.Middleware with an evaluator set; every failure lets the request through.
  unfoldable pub account_gate : Caller → (action ip agent : String) → Result {0} Unit
  unfolding decide
  account_gate caller action ip agent = account_verdict caller caller.found_user action ip agent

  abbrev pub of_denial : Fields → PreparedPolicy → Denial → Option PolicyResult
  of_denial merged p broken = none
  of_denial merged p passes = some (as_policy_result (allowed merged))
  of_denial merged p (denies reason) = some (as_policy_result (denied p reason))

  abbrev pub verdict_of : Fields → Fields → Option PreparedPolicy → Option PolicyResult
  verdict_of input merged none = some (as_policy_result (allowed merged))
  verdict_of input merged (some p) = of_denial merged p (denial opa p input)

  no_error-projected :
      (p : PreparedPolicy) (d : Denial) (merged : Fields)
      → no_error (projected (after p d (ok (allowed merged)))) ≡ of_denial merged p d
  no_error-projected p broken merged = refl
  no_error-projected p passes merged = refl
  no_error-projected p (denies reason) merged = refl

  no_error-by_stop :
      (input merged : Fields) (o : Option PreparedPolicy)
      → no_error (projected (by_stop opa input merged o)) ≡ verdict_of input merged o
  no_error-by_stop input merged none = refl
  no_error-by_stop input merged (some p) = no_error-projected p (denial opa p input) merged

  -- What oauth/ makes of a policy type: the denial of the first policy that denies the input or
  -- fails on it, no verdict at all when that policy fails, and with no such policy a verdict that
  -- allows with what all policies modify.
  pub consult-oauth_evaluate :
      (input : PolicyInput)
      → consult (some oauth_evaluate) input
        ≡ verdict_of
            (typed_input clock input).1
            (collect_all (e.prepared (typed_input clock input).0) (typed_input clock input).1 end)
            (first (stops opa (typed_input clock input).1) (e.prepared (typed_input clock input).0))
  unfolding consult oauth_evaluate
  consult-oauth_evaluate input =
      let kind = (typed_input clock input).0 in
      let fields = (typed_input clock input).1 in
      ap (λ r. no_error (projected r)) (evaluate-by_stop opa e kind fields)
      ∙ no_error-by_stop fields (collect_all (e.prepared kind) fields end)
          (first (stops opa fields) (e.prepared kind))

  admitted :
      (kind : String) (input : Fields)
      → admit (decide kind input) ≡ ok tt
      → All (λ (q : PreparedPolicy). denial opa q input ≡ passes) (e.prepared kind)
  unfolding decide
  admitted kind input h = elim (Result-cases (evaluate opa e kind input)) [
    | inl (r, allows) ↦
        let k = rw allows at h in evaluate_allows-All opa e kind input r allows (ground arith)
    | inr (x, fails) ↦ let k = rw fails at h in absurd (ground arith)
  ]

  -- The admin gate lets a request through only for an identified caller whose permissions could be
  -- read, and only when every admin_api policy was evaluated on them and none denied.
  pub require_policy_fails_closed :
      (permissions_of : ℕ → Result (List String)) (caller : Option ℕ) (method path ip : String)
      → require_policy permissions_of caller method path ip ≡ ok tt
      → (user : ℕ) × (permissions : List String) × (caller ≡ some user)
        × (permissions_of user ≡ ok permissions)
        × All
            (λ (q : PreparedPolicy).
              denial opa q (build_admin_api_input clock user permissions method path ip) ≡ passes)
            (e.prepared "admin_api")
  unfolding require_policy
  require_policy_fails_closed permissions_of none method path ip h = absurd (ground arith)
  require_policy_fails_closed permissions_of (some user) method path ip h =
      elim (Result-cases (permissions_of user)) [
        | inl (permissions, read) ↦ (
          user,
          permissions,
          refl,
          read,
          admitted "admin_api" (build_admin_api_input clock user permissions method path ip)
              (rw read at h),
        )
        | inr (x, fails) ↦ let k = rw fails at h in absurd (ground arith)
      ]

  abbrev pub account_input : Caller → User → (action ip agent : String) → Fields
  account_input caller u action ip agent =
      build_account_action_input clock u (or_empty caller.role_names) (or_empty caller.permissions)
        action caller.has_mfa caller.has_passkey caller.age_days ip agent

  -- The account gate stops a request only on a denial: the caller is a user that was found, and the
  -- first account_action policy that denies the input or fails on it denies it with the reason that
  -- the response carries.
  pub account_gate_fails_open :
      (caller : Caller) (action ip agent : String) (x : Error)
      → account_gate caller action ip agent ≡ err x
      → (u : User) × (r : EvalResult) × (caller.found_user ≡ some u)
        × (evaluate opa e "account_action" (account_input caller u action ip agent) ≡ ok r)
        × (r.deny ≡ true)
        × (x ≡ forbidden r.deny_reason)
  unfolding account_gate
  account_gate_fails_open caller action ip agent x h = elim (Option-cases caller.found_user) [
    | inl missing ↦ let k = rw missing at h in absurd (ground arith)
    | inr (u, is_found) ↦
        let k = rw is_found at h in
        elim (Result-cases
          (evaluate opa e "account_action" (account_input caller u action ip agent))) [
            | inl (r, ran) ↦
                let l = rw ran at k in (u, r, is_found, ran, ground arith, ground arith)
            | inr (y, fails) ↦ let l = rw fails at k in absurd (ground arith)
          ]
  ]
