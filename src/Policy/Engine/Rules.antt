-- ===== src/Policy/Engine/Rules.antt =====
-- policy/engine.go: which rules of the policies Evaluate reads, and whose modification it returns.
use orion_auth_backend.Prelude.{
  String, ◌≡◌, refl, sym, ap, ◌∙◌, Bool, true, false, List, [], ◌∷◌, Option, none, some, inl, inr,
  arith, false≢true, str_eq, eq_iff, Bool-cases, any, All, if◌then◌else◌, deref_or,
}
use orion_auth_backend.Exec.{ok}
use orion_auth_backend.Oauth.Modify.{Value, flag, object, Fields, end, field, get}
use orion_auth_backend.Policy.Engine.{
  PreparedPolicy, Opa, Engine, EvalResult, Evaluation, failed, undefined, bound, Query, passes,
  denial, collect, put, merge, after, evaluate_each, evaluate, asked, merge_bound, unless_empty,
  denial_of, extract_deny_reason,
}
use orion_auth_backend.Policy.Engine.Verdict.{collect_all, evaluate_allows-All, by_stop_allows}

get-put :
    (j k : String) (v : Value) (fields : Fields)
    → get j (put k v fields) ≡ (if str_eq k j then some v else get j fields)
unfolding get put
get-put j k v end = refl
get-put j k v (field i w fields) = ground (arith, get-put j k v fields, eq_iff i k, eq_iff k j)

abbrev or_else : Option Value → Option Value → Option Value
or_else none o = o
or_else (some v) o = some v

-- The last value that a map iteration gives for a key.
pub last_value : String → Fields → Option Value
last_value j end = none
last_value j (field k v fields) =
    or_else (last_value j fields) (if str_eq k j then some v else none)

or_else_assoc : (a b c : Option Value) → or_else (or_else a b) c ≡ or_else a (or_else b c)
or_else_assoc none b c = refl
or_else_assoc (some v) b c = refl

get-merge :
    (j : String) (fields merged : Fields)
    → get j (merge fields merged) ≡ or_else (last_value j fields) (get j merged)
unfolding merge last_value
get-merge j end merged = refl
get-merge j (field k v fields) merged = elim (Bool-cases (str_eq k j)) [
  | inl same ↦
      let put_here = rw same at (get-put j k v merged) in
      rw same (
        get-merge j fields (put k v merged)
        ∙ ap (or_else (last_value j fields)) put_here
        ∙ sym (or_else_assoc (last_value j fields) (some v) (get j merged)))
  | inr other ↦
      let put_there = rw other at (get-put j k v merged) in
      rw other (
        get-merge j fields (put k v merged)
        ∙ ap (or_else (last_value j fields)) put_there
        ∙ sym (or_else_assoc (last_value j fields) none (get j merged)))
]

abbrev set_by : String → Evaluation → Option Value
set_by j (bound (object fields)) = last_value j fields
set_by j _ = none

-- What the last policy that sets a key sets it to.
pub last_set : String → Fields → List PreparedPolicy → Option Value
last_set j input [] = none
last_set j input (p ∷ ps) = or_else (last_set j input ps) (set_by j (asked p.modify_query input))

get-merge_bound :
    (j : String) (v : Evaluation) (merged : Fields)
    → get j (merge_bound v merged) ≡ or_else (set_by j v) (get j merged)
get-merge_bound j (bound (object fields)) merged = get-merge j fields merged
get-merge_bound j (bound _) merged = refl
get-merge_bound j failed merged = refl
get-merge_bound j undefined merged = refl

get-collect_all :
    (j : String) (ps : List PreparedPolicy) (input merged : Fields)
    → get j (collect_all ps input merged) ≡ or_else (last_set j input ps) (get j merged)
unfolding collect_all collect last_set
get-collect_all j [] input merged = refl
get-collect_all j (p ∷ ps) input merged =
    get-collect_all j ps input (merge_bound (asked p.modify_query input) merged)
    ∙ ap (or_else (last_set j input ps)) (get-merge_bound j (asked p.modify_query input) merged)
    ∙ sym
        (or_else_assoc (last_set j input ps) (set_by j (asked p.modify_query input)) (get j merged))

or_none : (o : Option Value) → or_else o none ≡ o
or_none none = refl
or_none (some v) = refl

unless_empty_kept : (merged : Fields) → deref_or end (unless_empty merged) ≡ merged
unless_empty_kept end = refl
unless_empty_kept (field k v fields) = refl

module _ (opa : Opa) where
  -- An evaluation that allows returns, under each key, what the last policy that sets the key sets
  -- it to: among policies that set one key the one of the lowest priority has the say.
  pub modify_last_wins :
      (e : Engine) (kind : String) (input : Fields) (r : EvalResult) (j : String)
      → evaluate opa e kind input ≡ ok r
      → r.deny ≡ false
      → get j (deref_or end r.modify) ≡ last_set j input (e.prepared kind)
  unfolding get
  modify_last_wins e kind input r j h n =
      let whole = collect_all (e.prepared kind) input end in
      let same = by_stop_allows opa e kind input r h n in
      ap (λ (x : EvalResult). get j (deref_or end x.modify)) (sym same)
      ∙ ap (get j) (unless_empty_kept whole)
      ∙ get-collect_all j (e.prepared kind) input end
      ∙ or_none (last_set j input (e.prepared kind))

  -- The same engine with other allow rules.
  abbrev pub with_allow : (PreparedPolicy → Query) → List PreparedPolicy → List PreparedPolicy
  with_allow f [] = []
  with_allow f (p ∷ ps) = record p { allow_query = f p } ∷ with_allow f ps

  evaluate_each-with_allow :
      (f : PreparedPolicy → Query) (ps : List PreparedPolicy) (input merged : Fields)
      → evaluate_each opa (with_allow f ps) input merged ≡ evaluate_each opa ps input merged
  unfolding evaluate_each denial collect
  evaluate_each-with_allow f [] input merged = refl
  evaluate_each-with_allow f (p ∷ ps) input merged =
      ap (after p (denial opa p input))
        (evaluate_each-with_allow f ps input (collect p input merged))

  -- The allow rules of the policies do not matter: with any others every evaluation is the same.
  pub evaluate-with_allow :
      (f : PreparedPolicy → Query) (e : Engine) (kind : String) (input : Fields)
      → evaluate opa (record { prepared = λ k. with_allow f (e.prepared k) }) kind input
        ≡ evaluate opa e kind input
  unfolding evaluate
  evaluate-with_allow f e kind input = evaluate_each-with_allow f (e.prepared kind) input end

  abbrev pub is_flag : Evaluation → Bool
  is_flag (bound (flag b)) = true
  is_flag _ = false

  -- The deny rule of the policy is a Boolean on the input, true or false.
  abbrev pub has_boolean_deny : Fields → PreparedPolicy → Bool
  has_boolean_deny input p = is_flag (asked p.deny_query input)

  flag_denies : (b : Bool) → denial_of opa (bound (flag b)) ≡ passes → ⊥
  unfolding extract_deny_reason
  flag_denies true h = let spelled = rw (opa.sprint_flag true) at h in ground arith
  flag_denies false h = let spelled = rw (opa.sprint_flag false) at h in ground arith

  boolean_never_passes : (v : Evaluation) → is_flag v ≡ true → denial_of opa v ≡ passes → ⊥
  boolean_never_passes failed b h = absurd (false≢true b)
  boolean_never_passes undefined b h = absurd (false≢true b)
  boolean_never_passes (bound (flag b)) _ h = flag_denies b h
  boolean_never_passes (bound _) b h = absurd (ground arith)

  none_boolean :
      (ps : List PreparedPolicy) (input : Fields)
      → All (λ (q : PreparedPolicy). denial opa q input ≡ passes) ps
      → any (has_boolean_deny input) ps ≡ true
      → ⊥
  unfolding any denial
  none_boolean [] input h b = ground arith
  none_boolean (p ∷ ps) input (h, hs) b = elim (Bool-cases (has_boolean_deny input p)) [
    | inl boolean ↦ boolean_never_passes (asked p.deny_query input) boolean h
    | inr other ↦ none_boolean ps input hs (rw other at b)
  ]

  -- A policy of the type whose deny rule is a Boolean on the input, even false, lets no evaluation
  -- allow it.
  pub boolean_deny_denies :
      (e : Engine) (kind : String) (input : Fields) (r : EvalResult)
      → any (has_boolean_deny input) (e.prepared kind) ≡ true
      → evaluate opa e kind input ≡ ok r
      → r.deny ≡ true
  boolean_deny_denies e kind input r b h = elim (Bool-cases r.deny) [
    | inl says ↦ says
    | inr allows ↦
        absurd
          (none_boolean (e.prepared kind) input (evaluate_allows-All opa e kind input r h allows) b)
  ]
