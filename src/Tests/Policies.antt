-- ===== src/Tests/Policies.antt =====
-- Two login policies over a small stand-in for OPA, their engine and their table.
use orion_auth_backend.Prelude.{
  ℕ, String, ◌≡◌, refl, true, false, List, [], ◌∷◌, Option, none, some, inl, inr, arith, ℤ, pos,
  negsuc, str_eq, Bool-cases, first, any, All, if◌then◌else◌,
}
use orion_auth_backend.Exec.{ok, Result}
use orion_auth_backend.Oauth.Modify.{
  Value, null, flag, text, array, object, nil, cons, Fields, end, field,
}
use orion_auth_backend.Policy.Engine
use orion_auth_backend.Policy.Engine.{
  Policy, PreparedPolicy, Opa, Engine, EvalResult, Evaluation, undefined, bound, Query, evaluate,
  allowed, denied, new_engine, validates, compile,
}
use orion_auth_backend.Policy.Engine.Cache.{
  IsValid, Call, load, remove, run, replay, find_policy, engine_refines,
}
use orion_auth_backend.Policy.Engine.Verdict.{
  by_stop, collect_all, stops, evaluate-by_stop, IsDeniedBy, evaluate-IsDeniedBy,
}
use orion_auth_backend.Policy.Engine.Rules.{
  with_allow, has_boolean_deny, evaluate-with_allow, boolean_deny_denies,
}
use orion_auth_backend.Policy.Service.{PolicyState, load_all}
use orion_auth_backend.Policy.Service.Sync.{InSync}
use orion_auth_backend.Policy.Service.History.{
  AdminCall, creates, updates, deletes, administer, administered-InSync,
}
use orion_auth_backend.Policy.Inputs.{Clock, build_admin_api_input}
use orion_auth_backend.Policy.Gates.{require_policy, require_policy_fails_closed}
use orion_auth_backend.Tests.Sample.{sample_world}
use orion_auth_backend.Tests.Sorting.{
  insertion_sort, insertion_sort-permutes, insertion_sort-IsDescending,
}

-- A module is one word: what its deny or its modify rule says.
abbrev deny_rule : String → Evaluation
deny_rule code =
    if str_eq code "stop"
    then bound (array (cons (text "blocked") nil))
    else if str_eq code "boolean"
    then bound (flag false)
    else undefined

abbrev modify_rule : String → Evaluation
modify_rule code =
    if str_eq code "grant" then bound (object (field "require_mfa" (flag true) end)) else undefined

abbrev rule_answer : (query code : String) → Evaluation
rule_answer query code =
    if str_eq query "x = data.orionauth.login.deny"
    then deny_rule code
    else if str_eq query "x = data.orionauth.login.modify"
    then modify_rule code
    else undefined

abbrev prepared : (name code query : String) → Option Query
prepared name code query = if str_eq code "" then none else some (λ input. rule_answer query code)

abbrev printed : Value → String
printed null = "<nil>"
printed (flag b) = if b then "true" else "false"
printed (text s) = s
printed _ = "other"

abbrev key_of_first : Fields → Option String
key_of_first end = none
key_of_first (field k v fields) = some k

abbrev sample_opa : Opa
sample_opa = record {
  prepare = prepared;
  uuid_text = λ n. "id";
  sprint = printed;
  sprint_text = λ s. refl;
  sprint_flag = λ b. refl;
  sprint_null = refl;
  first_key = key_of_first;
  sort_slice = insertion_sort;
  permutes = insertion_sort-permutes;
  sorts = insertion_sort-IsDescending;
}

abbrev login_policy : ℕ → String → String → ℤ → Policy
login_policy id name code priority = record {
  id = id;
  name = name;
  description = none;
  kind = "login";
  rego = code;
  version = 1;
  active = true;
  priority = priority;
}

abbrev loads_two : List Call
loads_two =
    load (login_policy 1 "second factor" "grant" (pos 5))
    ∷ load (login_policy 2 "office hours" "stop" (pos 9))
    ∷ load (login_policy 3 "old" "stop" (negsuc 2))
    ∷ remove 3 "login"
    ∷ []

engine_refines_example :
    IsValid (run sample_opa loads_two new_engine)
    × ((kind : String) (id : ℕ)
        → find_policy (run sample_opa loads_two new_engine) kind id
          ≡ replay sample_opa loads_two (λ k n. none) kind id)
engine_refines_example = engine_refines sample_opa loads_two

abbrev cached : ℕ → String → ℤ → String → PreparedPolicy
cached id name priority code = record {
  id = id;
  name = name;
  priority = priority;
  allow_query = λ input. undefined;
  deny_query = some (λ input. deny_rule code);
  modify_query = some (λ input. modify_rule code);
}

abbrev second_factor : PreparedPolicy
second_factor = cached 1 "second factor" (pos 5) "grant"

abbrev office_hours : PreparedPolicy
office_hours = cached 2 "office hours" (pos 9) "stop"

abbrev engine_of : List PreparedPolicy → Engine
engine_of ps = record { prepared = λ kind. if str_eq kind "login" then ps else [] }

abbrev two_policies : Engine
two_policies = engine_of (office_hours ∷ second_factor ∷ [])

abbrev one_policy : Engine
one_policy = engine_of (second_factor ∷ [])

two_policies-IsValid : IsValid two_policies
two_policies-IsValid = record {
  descending = λ kind. elim (Bool-cases (str_eq kind "login")) [
    | inl same ↦ rw same ((refl, tt), (tt, tt))
    | inr other ↦ rw other tt
  ];
  distinct = λ kind. elim (Bool-cases (str_eq kind "login")) [
    | inl same ↦ rw same ((refl, tt), (tt, tt))
    | inr other ↦ rw other tt
  ];
}

evaluate-by_stop_example :
    evaluate sample_opa two_policies "login" end
    ≡ by_stop sample_opa end
        (collect_all (two_policies.prepared "login") end end)
        (first (stops sample_opa end) (two_policies.prepared "login"))
evaluate-by_stop_example = evaluate-by_stop sample_opa two_policies "login" end

abbrev blocked : EvalResult
blocked = denied office_hours "blocked"

evaluated : evaluate sample_opa two_policies "login" end ≡ ok blocked
unfolding evaluate Engine.evaluate_each Engine.extract_deny_reason
evaluated = refl

evaluate-IsDeniedBy_example : IsDeniedBy sample_opa (two_policies.prepared "login") end blocked
evaluate-IsDeniedBy_example =
    evaluate-IsDeniedBy sample_opa two_policies "login" end blocked two_policies-IsValid evaluated
      refl

abbrev refuses_all : PreparedPolicy → Query
refuses_all p input = bound (flag false)

evaluate-with_allow_example :
    evaluate sample_opa
      (record { prepared = λ k. with_allow sample_opa refuses_all (one_policy.prepared k) })
      "login"
      end
    ≡ evaluate sample_opa one_policy "login" end
evaluate-with_allow_example = evaluate-with_allow sample_opa refuses_all one_policy "login" end

abbrev boolean_policy : Engine
boolean_policy = engine_of (cached 4 "never" (pos 1) "boolean" ∷ [])

abbrev said_false : EvalResult
said_false = denied (cached 4 "never" (pos 1) "boolean") "false"

denied_by_false : evaluate sample_opa boolean_policy "login" end ≡ ok said_false
unfolding evaluate Engine.evaluate_each Engine.extract_deny_reason
denied_by_false = refl

has_boolean : any (has_boolean_deny sample_opa end) (boolean_policy.prepared "login") ≡ true
unfolding any
has_boolean = refl

boolean_deny_denies_example : said_false.deny ≡ true
boolean_deny_denies_example =
    boolean_deny_denies sample_opa boolean_policy "login" end said_false has_boolean denied_by_false

abbrev sample_clock : Clock
sample_clock = record {
  hour = 9;
  weekday = "Monday";
  weekday_n = 1;
  unix = 0;
  uuid_text = λ n. "id";
}

abbrev reads_users : ℕ → Result (List String)
reads_users user = ok ("users:read" ∷ [])

passed :
    require_policy sample_opa sample_clock two_policies reads_users (some 3) "GET" "/" "::1" ≡ ok tt
unfolding require_policy evaluate Engine.evaluate_each
passed = refl

require_policy_fails_closed_example :
    (user : ℕ) × (permissions : List String) × (some 3 ≡ some user)
    × (reads_users user ≡ ok permissions)
    × All
        (λ (q : PreparedPolicy).
          Engine.denial sample_opa q
            (build_admin_api_input sample_clock user permissions "GET" "/" "::1")
          ≡ Engine.passes)
        (two_policies.prepared "admin_api")
require_policy_fails_closed_example =
    require_policy_fails_closed sample_opa sample_clock two_policies reads_users (some 3) "GET" "/"
      "::1" passed

abbrev policy_tables : PolicyState
policy_tables = record {
  policies = login_policy 1 "second factor" "grant" (pos 5) ∷ [];
  engine = new_engine;
  denials = [];
  draws = 0;
}

abbrev a_day_of_calls : List AdminCall
a_day_of_calls =
    creates (record {
      name = "office hours";
      description = none;
      kind = "login";
      rego = "stop";
      priority = some (pos 9);
      active = none;
    })
    ∷ updates 1 (record {
      name = none;
      description = none;
      rego = none;
      priority = none;
      active = some false;
    })
    ∷ deletes 1000
    ∷ []

all_loaded : (load_all sample_opa sample_world policy_tables).0 ≡ ok tt
unfolding load_all orion_auth_backend.Prelude.select Engine.load_policies compile
all_loaded = refl

administered-InSync_example : InSync sample_opa (
    administer sample_opa sample_world a_day_of_calls
      (load_all sample_opa sample_world policy_tables).1)
unfolding compile
administered-InSync_example =
    administered-InSync sample_opa sample_world a_day_of_calls policy_tables refl (tt, tt)
      all_loaded
