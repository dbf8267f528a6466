-- ===== src/Policy/Service.antt =====
-- policy/service.go and policy/repository.go: the administration of the policies, which keeps the
-- engine in step with their table, and the evaluation with its audit log.
pub mod Sync
pub mod Operations
pub mod Startup
pub mod History
use orion_auth_backend.Prelude.{
  ℕ, ◌+◌, String, Bool, true, false, not, ◌&&◌, ◌||◌, List, [], ◌∷◌, Option, none, some, ℤ, pos,
  ◌==◌, str_eq, first, select, save_row, any, is_some, deref_or, if◌then◌else◌,
}
use orion_auth_backend.Errors.{bad_request, conflict, internal_error, not_found}
use orion_auth_backend.Exec.{
  Exec, Result, ok, err, pure, lift, gets, query, write, or_raise, found, optional, fail_if, when,
  require, branch, ◌>>=◌, ◌>>◌,
}
use orion_auth_backend.World.{
  World, find_policy, find_policy_by_name, create_policy, update_policy, delete_policy,
  list_policies,
}
use orion_auth_backend.Oauth.Modify.{Value, text, object, Fields, get, object_fields}
use orion_auth_backend.Policy.Engine.{
  Policy, Opa, Engine, EvalResult, remove_policy, evaluate, load_policy, load_policies, validates,
}
use orion_auth_backend.Policy.Engine.Cache.{loads}

-- The LogEntry of a denial.
pub record DenialLog : Type 0 where
  pub user_id : Option ℕ
  pub client_id : Option ℕ
  pub ip_address : String
  pub user_agent : String
  pub policy_type : String
  pub policy_name : String
  pub reason : String
  pub input : Fields

-- The table, the engine, the audit log and the draws of the random generator.
pub record PolicyState : Type 0 where
  pub policies : List Policy
  pub engine : Engine
  pub denials : List DenialLog
  pub draws : ℕ

pub record CreatePolicyInput : Type 0 where
  pub name : String
  pub description : Option String
  pub kind : String
  pub rego : String
  pub priority : Option ℤ
  pub active : Option Bool

pub record UpdatePolicyInput : Type 0 where
  pub name : Option String
  pub description : Option String
  pub rego : Option String
  pub priority : Option ℤ
  pub active : Option Bool

abbrev as_object : Option Value → Option Fields
as_object = object_fields

abbrev as_text : Option Value → Option String
as_text (some (text s)) = some s
as_text _ = none

abbrev in_section : Option Fields → String → Option String
in_section none field = none
in_section (some sub) field = as_text (get field sub)

-- extractString
unfoldable pub extract_string : Fields → String → String
extract_string input key = deref_or "" (as_text (get key input))

abbrev pub new_policy : CreatePolicyInput → Policy
new_policy input = record {
  id = 0;
  name = input.name;
  description = input.description;
  kind = input.kind;
  rego = input.rego;
  version = 1;
  active = deref_or true input.active;
  priority = deref_or (pos 0) input.priority;
}

abbrev described : Option String → Option String → Option String
described none old = old
described (some given) old = some given

-- `if input.Rego != nil { p.Rego = *input.Rego; p.Version++ }`
abbrev with_rego : Option String → Policy → Policy
with_rego none p = p
with_rego (some code) p = record p { rego = code; version = p.version + 1 }

abbrev pub changed : UpdatePolicyInput → Policy → Policy
changed input p =
    let q = with_rego input.rego p in
    record q {
      name = deref_or q.name input.name;
      description = described input.description q.description;
      priority = deref_or q.priority input.priority;
      active = deref_or q.active input.active;
    }

-- Create: the row gets its identifier in BeforeCreate; identifiers and names are unique.
abbrev pub clashes : Policy → List Policy → Bool
clashes row rows = any (λ p. p.id == row.id || str_eq p.name row.name) rows

-- Update, a `Save`; the name stays unique
abbrev taken : Policy → List Policy → Bool
taken row rows = any (λ p. not (p.id == row.id) && str_eq p.name row.name) rows

module _ (opa : Opa) (w : World) where
  -- Repository.FindByID and FindByName
  unfoldable pub policy_by_id : ℕ → Exec PolicyState (Option Policy)
  unfolding ◌>>=◌
  policy_by_id id = query (w.breaks find_policy) (λ s. first (λ p. p.id == id) s.policies)

  unfoldable pub policy_by_name : String → Exec PolicyState (Option Policy)
  unfolding ◌>>=◌
  policy_by_name name =
      query (w.breaks find_policy_by_name) (λ s. first (λ p. str_eq p.name name) s.policies)

  -- gorm's Create: an Active of false is the zero value, which the column's default, true, replaces in
  -- the row and in the struct.
  abbrev pub defaulted : Policy → Policy
  defaulted row = record row { active = true }

  abbrev pub add_policy : Policy → Exec PolicyState Policy
  add_policy row s =
      if w.breaks create_policy || clashes row s.policies
      then (err (internal_error "failed to create policy"), s)
      else (ok (defaulted row), record s { policies = defaulted row ∷ s.policies })

  -- engine.LoadPolicy; a failure is logged
  abbrev pub cache : Policy → Exec PolicyState Unit
  cache row s = (ok tt, record s { engine = loads opa s.engine row })

  abbrev pub drop_cached : ℕ → String → Exec PolicyState Unit
  drop_cached id kind s = (ok tt, record s { engine = remove_policy s.engine id kind })

  unfoldable pub new_policy_id : Exec PolicyState ℕ
  new_policy_id s = (
    elim (w.uuid s.draws) [
      | none ↦ err (internal_error "failed to create policy")
      | some id ↦ ok id
    ],
    record s { draws = s.draws + 1 },
  )

  -- Create, then LoadPolicy of an active row
  unfoldable pub store_policy : Policy → Exec PolicyState Policy
  unfolding ◌>>=◌
  store_policy row = do stored ← add_policy row; when stored.active (cache stored); pure stored

  unfoldable pub create : CreatePolicyInput → Exec PolicyState Policy
  create input = do
    existing ← optional (policy_by_name input.name)
    fail_if (is_some existing) (conflict "policy name already exists")
    fail_if (not (validates opa input.rego)) (bad_request "invalid rego")
    id ← new_policy_id
    store_policy (record (new_policy input) { id = id })

  unfoldable pub get_policy : ℕ → Exec PolicyState Policy
  unfolding policy_by_id ◌>>=◌
  get_policy id = do
    row ← or_raise (internal_error "failed to find policy") (policy_by_id id)
    require (not_found "policy not found") row

  abbrev save_policy : Policy → Exec PolicyState Unit
  save_policy row s =
      if w.breaks update_policy || taken row s.policies
      then (err (internal_error "failed to update policy"), s)
      else (ok tt, record s { policies = save_row (λ p. p.id == row.id) row s.policies })

  -- Update, then the engine: an active row is loaded, another one removed
  unfoldable pub save_and_cache : Policy → Exec PolicyState Policy
  unfolding ◌>>=◌
  save_and_cache row = do
    save_policy row
    branch row.active (cache row) (drop_cached row.id row.kind)
    pure row

  abbrev pub is_invalid : Option String → Bool
  is_invalid none = false
  is_invalid (some code) = not (validates opa code)

  unfoldable pub update : ℕ → UpdatePolicyInput → Exec PolicyState Policy
  update id input = do
    p ← get_policy id
    fail_if (is_invalid input.rego) (bad_request "invalid rego")
    save_and_cache (changed input p)

  -- Delete, then RemovePolicy
  unfoldable pub delete_and_drop : ℕ → String → Exec PolicyState Unit
  unfolding ◌>>=◌
  delete_and_drop id kind = do
    or_raise (internal_error "failed to delete policy") (
        write (w.breaks delete_policy)
          (λ s. record s { policies = select (λ p. not (p.id == id)) s.policies }))
    drop_cached id kind

  unfoldable pub delete : ℕ → Exec PolicyState Unit
  delete id = do p ← get_policy id; delete_and_drop id p.kind

  abbrev pub replaced : Result Engine → Exec PolicyState Unit
  replaced (ok e) s = (ok tt, record s { engine = e })
  replaced (err x) s = (err x, s)

  abbrev pub load_rows : List Policy → Exec PolicyState Unit
  load_rows [] s = (ok tt, s)
  load_rows (p ∷ ps) s = replaced (load_policies opa (p ∷ ps)) s

  -- LoadAll, less the order of the rows; without active rows the engine stays as it is
  unfoldable pub load_all : Exec PolicyState Unit
  unfolding ◌>>=◌
  load_all = do
    rows ← query (w.breaks list_policies) (λ s. select (λ p. p.active) s.policies)
    load_rows rows

  module _ (parse_uuid : String → Option ℕ) (audited : Bool) where
    abbrev parsed : Option String → Option ℕ
    parsed none = none
    parsed (some raw) = parse_uuid raw

    -- extractUUID
    unfoldable pub extract_uuid : Fields → (section field : String) → Option ℕ
    extract_uuid input section field = parsed (in_section (as_object (get section input)) field)

    abbrev pub denial_log : String → Fields → EvalResult → DenialLog
    denial_log kind input r = record {
      user_id = extract_uuid input "user" "id";
      client_id = extract_uuid input "client" "id";
      ip_address = extract_string input "ip_address";
      user_agent = extract_string input "user_agent";
      policy_type = kind;
      policy_name = r.policy_name;
      reason = r.deny_reason;
      input = input;
    }

    abbrev log_denial : String → Fields → EvalResult → PolicyState → PolicyState
    log_denial kind input r s =
        if r.deny && audited then record s { denials = denial_log kind input r ∷ s.denials } else s

    abbrev log_result : String → Fields → Result EvalResult → Exec PolicyState EvalResult
    log_result kind input (ok r) s = (ok r, log_denial kind input r s)
    log_result kind input (err e) s = (err e, s)

    -- Evaluate; `audited` says that an audit service is set
    unfoldable pub evaluate_logged : String → Fields → Exec PolicyState EvalResult
    unfolding extract_uuid extract_string
    evaluate_logged kind input s = log_result kind input (evaluate opa s.engine kind input) s
