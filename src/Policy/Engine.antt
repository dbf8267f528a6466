-- ===== src/Policy/Engine.antt =====
-- policy/engine.go: the compiled policies, by type and in the order of their priority, and their
-- evaluation. A Go map from types to slices is a function that gives the nil slice at an absent key.
pub mod Slices
pub mod Cache
pub mod Verdict
pub mod Rules
use Prim.Native.String
use mathlib.Core.List.{Permᴰ}
use orion_auth_backend.Prelude.{
  ℕ, String, ◌≡◌, Bool, true, false, not, ◌||◌, ◌&&◌, List, [], ◌∷◌, ◌++◌, Option, none, some, ℤ,
  ltb_ℤ, ◌==◌, str_eq, deref_or, IsDescending, if◌then◌else◌,
}
use orion_auth_backend.Errors.{opa_error}
use orion_auth_backend.Exec.{Result, ok, err}
use orion_auth_backend.Oauth.Modify.{
  Value, null, flag, text, array, object, Values, nil, cons, Fields, end, field,
}

-- model/policy.go
pub record Policy : Type 0 where
  pub id : ℕ
  pub name : String
  pub description : Option String
  pub kind : String
  pub rego : String
  pub version : ℕ
  pub active : Bool
  pub priority : ℤ

-- What `Eval` gives for `x = <path>`: an error, no result that binds x, or the value of x.
pub data Evaluation : Type 0 where
  failed undefined : Evaluation
  bound : Value → Evaluation

abbrev pub Query : Type 0
Query = Fields → Evaluation

pub record PreparedPolicy : Type 0 where
  pub id : ℕ
  pub name : String
  pub priority : ℤ
  pub allow_query : Query
  pub deny_query : Option Query
  pub modify_query : Option Query

-- What the engine takes from outside the repository: OPA, and of the Go library the text of a
-- value, the key that a map iteration meets first, and sort.Slice with what it promises for an
-- order by an integer key.
pub record Opa : Type 0 where
  -- rego.New(Module(name, code), Query(query)).PrepareForEval
  pub prepare : (module_name code query : String) → Option Query
  pub uuid_text : ℕ → String
  -- Sprintf("%v")
  pub sprint : Value → String
  pub sprint_text : (s : String) → sprint (text s) ≡ s
  pub sprint_flag : (b : Bool) → sprint (flag b) ≡ (if b then "true" else "false")
  pub sprint_null : sprint null ≡ "<nil>"
  pub first_key : Fields → Option String
  pub sort_slice :
      (PreparedPolicy → PreparedPolicy → Bool) → List PreparedPolicy → List PreparedPolicy
  pub permutes :
      (less : PreparedPolicy → PreparedPolicy → Bool) (ps : List PreparedPolicy)
      → Permᴰ ps (sort_slice less ps)
  pub sorts :
      (key : PreparedPolicy → ℤ) (ps : List PreparedPolicy)
      → IsDescending key (sort_slice (λ p q. ltb_ℤ (key q) (key p)) ps)

pub record Engine : Type 0 where
  pub prepared : String → List PreparedPolicy

pub record EvalResult : Type 0 where
  pub allow : Bool
  pub deny : Bool
  pub deny_reason : String
  pub modify : Option Fields
  pub policy_name : String

unfoldable pub new_engine : Engine
new_engine = record { prepared = λ kind. [] }

-- e.prepared[kind] = ps
abbrev pub assign : Engine → String → List PreparedPolicy → Engine
assign e kind ps = record { prepared = λ k. if str_eq k kind then ps else e.prepared k }

-- the loop of LoadPolicy, and the append of a policy that is new
unfoldable pub place : PreparedPolicy → List PreparedPolicy → List PreparedPolicy
place pp [] = pp ∷ []
place pp (q ∷ qs) = let rest = place pp qs in if q.id == pp.id then pp ∷ qs else q ∷ rest

-- append(policies[:i], policies[i+1:]...) at the first i with the id
unfoldable pub without : ℕ → List PreparedPolicy → List PreparedPolicy
without id [] = []
without id (q ∷ qs) = let rest = without id qs in if q.id == id then qs else q ∷ rest

unfoldable pub remove_policy : Engine → ℕ → String → Engine
remove_policy e id kind = assign e kind (without id (e.prepared kind))

-- merged[k] = v
unfoldable pub put : String → Value → Fields → Fields
put k v end = field k v end
put k v (field j w fields) =
    let rest = put k v fields in if str_eq j k then field k v fields else field j w rest

-- for k, v := range modMap { merged[k] = v }
unfoldable pub merge : Fields → Fields → Fields
merge end merged = merged
merge (field k v fields) merged = merge fields (put k v merged)

-- `if len(merged) > 0 { result.Modify = merged }`
abbrev pub unless_empty : Fields → Option Fields
unless_empty end = none
unless_empty (field k v fields) = some (field k v fields)

abbrev pub allowed : Fields → EvalResult
allowed merged = record {
  allow = true;
  deny = false;
  deny_reason = "";
  modify = unless_empty merged;
  policy_name = "";
}

abbrev pub denied : PreparedPolicy → String → EvalResult
denied p reason = record {
  allow = false;
  deny = true;
  deny_reason = reason;
  modify = none;
  policy_name = p.name;
}

abbrev pub asked : Option Query → Fields → Evaluation
asked none input = undefined
asked (some query) input = query input

-- the loop body's collection of what a policy modifies; an error is passed over
abbrev pub merge_bound : Evaluation → Fields → Fields
merge_bound (bound (object fields)) merged = merge fields merged
merge_bound _ merged = merged

unfoldable pub collect : PreparedPolicy → Fields → Fields → Fields
collect p input merged = merge_bound (asked p.modify_query input) merged

-- What the deny query of a policy says: the run ends in an error, in a denial, or goes on.
pub data Denial : Type 0 where
  broken passes : Denial
  denies : String → Denial

abbrev pub after : PreparedPolicy → Denial → Result EvalResult → Result EvalResult
after p broken rest = err (opa_error p.name)
after p (denies reason) rest = ok (denied p reason)
after p passes rest = rest

abbrev reason_or_pass : String → Denial
reason_or_pass reason = if str_eq reason "" then passes else denies reason

module _ (opa : Opa) where
  -- fmt.Sprintf of any other value, empty for the texts of an empty array and map
  abbrev scalar_reason : String → String
  scalar_reason s = if str_eq s "[]" || str_eq s "map[]" then "" else s

  unfoldable pub extract_deny_reason : Value → String
  extract_deny_reason (array nil) = ""
  extract_deny_reason (array (cons v vs)) = opa.sprint v
  extract_deny_reason (object fields) = deref_or "" (opa.first_key fields)
  extract_deny_reason v = scalar_reason (opa.sprint v)

  abbrev pub denial_of : Evaluation → Denial
  denial_of failed = broken
  denial_of undefined = passes
  denial_of (bound v) = reason_or_pass (extract_deny_reason v)

  -- the deny part of the loop body
  unfoldable pub denial : PreparedPolicy → Fields → Denial
  denial p input = denial_of (asked p.deny_query input)

  -- the loop of Evaluate
  unfoldable pub evaluate_each : List PreparedPolicy → Fields → Fields → Result EvalResult
  unfolding denial collect
  evaluate_each [] input merged = ok (allowed merged)
  evaluate_each (p ∷ ps) input merged =
      after p (denial p input) (evaluate_each ps input (collect p input merged))

  unfoldable pub evaluate : Engine → String → Fields → Result EvalResult
  evaluate e kind input = evaluate_each (e.prepared kind) input end

  abbrev joined : String → String → String
  joined a b = String.◌++◌ a b

  abbrev query_text : String → String → String
  query_text kind rule = joined "x = data.orionauth." (joined kind (joined "." rule))

  abbrev compiled : Policy → (String → Option Query) → Option Query → Option PreparedPolicy
  compiled p ask none = none
  compiled p ask (some query) = some (record {
    id = p.id;
    name = p.name;
    priority = p.priority;
    allow_query = query;
    deny_query = ask "deny";
    modify_query = ask "modify";
  })

  -- The allow query is required, the other two are optional.
  unfoldable pub compile : Policy → Option PreparedPolicy
  compile p =
      let ask = λ (rule : String).
        opa.prepare (joined "policy_" (joined (opa.uuid_text p.id) ".rego")) p.rego
          (query_text p.kind rule) in
      compiled p ask (ask "allow")

  unfoldable pub sort_by_priority : List PreparedPolicy → List PreparedPolicy
  sort_by_priority = opa.sort_slice (λ p q. ltb_ℤ q.priority p.priority)

  abbrev loaded : Engine → Policy → Option PreparedPolicy → Result Engine
  loaded e p none = err (opa_error p.name)
  loaded e p (some pp) = ok (assign e p.kind (sort_by_priority (place pp (e.prepared p.kind))))

  unfoldable pub load_policy : Engine → Policy → Result Engine
  load_policy e p = loaded e p (compile p)

  abbrev grouped : Engine → Policy → Option PreparedPolicy → Result Engine
  grouped e p none = err (opa_error p.name)
  grouped e p (some pp) = ok (assign e p.kind (e.prepared p.kind ++ pp ∷ []))

  abbrev then_group : Result Engine → (Engine → Result Engine) → Result Engine
  then_group (ok e) rest = rest e
  then_group (err x) rest = err x

  -- the first loop of LoadPolicies
  unfoldable pub group : List Policy → Engine → Result Engine
  group [] e = ok e
  group (p ∷ ps) e = then_group (grouped e p (compile p)) (group ps)

  abbrev pub sorted : Result Engine → Result Engine
  sorted (ok e) = ok (record { prepared = λ kind. sort_by_priority (e.prepared kind) })
  sorted (err x) = err x

  -- An error leaves the engine as it was: there is no new one.
  unfoldable pub load_policies : List Policy → Result Engine
  unfolding group
  load_policies ps = sorted (group ps new_engine)

  -- ValidateRego
  abbrev is_compiled : Option Query → Bool
  is_compiled none = false
  is_compiled (some _) = true

  unfoldable pub validates : String → Bool
  validates code = is_compiled (opa.prepare "validation.rego" code "data")
