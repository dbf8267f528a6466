-- ===== src/Policy/Engine/Cache.antt =====
-- policy/engine.go: LoadPolicies, LoadPolicy and RemovePolicy as changes to a map from types and
-- identifiers to compiled policies, and the order that they keep.
use mathlib.Core.Path.{fun_ext}
use orion_auth_backend.Prelude.{
  ℕ, String, ◌≡◌, refl, sym, ap, ◌∙◌, Bool, true, false, ◌&&◌, List, [], ◌∷◌, Option, none, some,
  inl, inr, arith, str_eq, eq_iff, ◌==◌, Bool-cases, Option-cases, first, IsDescending, HasDistinct,
  perm-HasDistinct, first-perm, if◌then◌else◌,
}
use orion_auth_backend.Exec.{Result, ok, err}
use orion_auth_backend.Policy.Engine.Slices.{
  place-HasDistinct, without-HasDistinct, without-IsDescending, first-place, first-without,
}
use orion_auth_backend.Policy.Engine.{
  Policy, PreparedPolicy, Opa, Engine, new_engine, assign, place, without, remove_policy, compile,
  sort_by_priority, load_policy,
}

-- Every type's policies stand in descending priority, no two with one identifier.
pub record IsValid (e : Engine) : Type 0 where
  pub descending :
      (kind : String) → IsDescending (λ (p : PreparedPolicy). p.priority) (e.prepared kind)
  pub distinct : (kind : String) → HasDistinct (λ (p : PreparedPolicy). p.id) (e.prepared kind)

-- The abstract view: the policy of a type with an identifier.
abbrev kept : Engine → Result Engine → Engine
kept e (ok e') = e'
kept e (err _) = e

abbrev pub is_loaded : Option PreparedPolicy → Bool
is_loaded none = false
is_loaded (some _) = true

unfoldable pub find_policy : Engine → String → ℕ → Option PreparedPolicy
find_policy e kind id = first (λ p. p.id == id) (e.prepared kind)

pub new_engine-IsValid : IsValid new_engine
unfolding new_engine
new_engine-IsValid = record { descending = λ kind. tt; distinct = λ kind. tt }

-- A change of one type's policies touches no other type.
assign-IsValid :
    (e : Engine) (kind : String) (ps : List PreparedPolicy)
    → IsValid e
    → IsDescending (λ (p : PreparedPolicy). p.priority) ps
    → HasDistinct (λ (p : PreparedPolicy). p.id) ps
    → IsValid (assign e kind ps)
assign-IsValid e kind ps v d h = record {
  descending =
      λ k. at_kind (IsDescending (λ (p : PreparedPolicy). p.priority)) k d (v.descending k);
  distinct = λ k. at_kind (HasDistinct (λ (p : PreparedPolicy). p.id)) k h (v.distinct k);
}
  where
    at_kind :
        (P : List PreparedPolicy → Type 0) (k : String)
        → P ps
        → P (e.prepared k)
        → P (if str_eq k kind then ps else e.prepared k)
    at_kind P k new old = elim (Bool-cases (str_eq k kind)) [
      | inl same ↦ rw same new
      | inr other ↦ rw other old
    ]

pub remove_policy-IsValid :
    (e : Engine) (id : ℕ) (kind : String) → IsValid e → IsValid (remove_policy e id kind)
unfolding remove_policy
remove_policy-IsValid e id kind v =
    assign-IsValid e kind (without id (e.prepared kind)) v
      (without-IsDescending id (e.prepared kind) (v.descending kind))
      (without-HasDistinct id (e.prepared kind) (v.distinct kind))

module _ (opa : Opa) where
  pub sort_by_priority-HasDistinct :
      (ps : List PreparedPolicy)
      → HasDistinct (λ (p : PreparedPolicy). p.id) ps
      → HasDistinct (λ (p : PreparedPolicy). p.id) (sort_by_priority opa ps)
  unfolding sort_by_priority
  sort_by_priority-HasDistinct ps h =
      perm-HasDistinct (λ (p : PreparedPolicy). p.id) (opa.permutes _ ps) h

  pub sort_by_priority-IsDescending :
      (ps : List PreparedPolicy)
      → IsDescending (λ (p : PreparedPolicy). p.priority) (sort_by_priority opa ps)
  unfolding sort_by_priority
  sort_by_priority-IsDescending ps = opa.sorts (λ p. p.priority) ps

  pub first-sort_by_priority :
      (n : ℕ) (ps : List PreparedPolicy)
      → HasDistinct (λ (p : PreparedPolicy). p.id) ps
      → first (λ p. p.id == n) (sort_by_priority opa ps) ≡ first (λ p. p.id == n) ps
  unfolding sort_by_priority
  first-sort_by_priority n ps h =
      sym (first-perm (λ (p : PreparedPolicy). p.id) n (opa.permutes _ ps) h)

  -- What LoadPolicy leaves: nothing new when the policy does not compile.
  unfoldable pub loads : Engine → Policy → Engine
  loads e p = kept e (load_policy opa e p)

  pub loads-IsValid : (e : Engine) (p : Policy) → IsValid e → IsValid (loads e p)
  unfolding loads load_policy
  loads-IsValid e p v = elim (Option-cases (compile opa p)) [
    | inl failed ↦ rw failed v
    | inr (pp, done) ↦
        let placed = place pp (e.prepared p.kind) in
        rw done (
          assign-IsValid e p.kind (sort_by_priority opa placed) v
            (sort_by_priority-IsDescending placed)
            (sort_by_priority-HasDistinct placed
              (place-HasDistinct pp (e.prepared p.kind) (v.distinct p.kind))))
  ]

  pub compile-keeps_id : (p : Policy) (pp : PreparedPolicy) → compile opa p ≡ some pp → pp.id ≡ p.id
  unfolding compile
  compile-keeps_id p pp h = ground arith

  -- The abstract LoadPolicy: one key changes, when the policy compiles.
  abbrev pub learn :
      (String → ℕ → Option PreparedPolicy) → Policy → String → ℕ → Option PreparedPolicy
  learn view p kind id =
      if str_eq kind p.kind && p.id == id && is_loaded (compile opa p)
      then compile opa p
      else view kind id

  pub find_policy-loads :
      (e : Engine) (p : Policy) (kind : String) (id : ℕ)
      → IsValid e
      → find_policy (loads e p) kind id ≡ learn (find_policy e) p kind id
  unfolding find_policy loads load_policy
  find_policy-loads e p kind id v = elim (Option-cases (compile opa p)) [
    | inl failed ↦ rw failed (ground arith)
    | inr (pp, done) ↦
        let placed = place pp (e.prepared p.kind) in
        let distinct = place-HasDistinct pp (e.prepared p.kind) (v.distinct p.kind) in
        let moved = first-sort_by_priority id placed distinct in
        let found = first-place id pp (e.prepared p.kind) in
        let same = compile-keeps_id p pp done in
        rw done (ground (arith, moved, found, same, eq_iff kind p.kind))
  ]

-- The abstract RemovePolicy.
abbrev pub forget :
    (String → ℕ → Option PreparedPolicy) → ℕ → String → String → ℕ → Option PreparedPolicy
forget view id kind k n = if str_eq k kind && id == n then none else view k n

pub find_policy-remove_policy :
    (e : Engine) (id : ℕ) (kind k : String) (n : ℕ)
    → IsValid e
    → find_policy (remove_policy e id kind) k n ≡ forget (find_policy e) id kind k n
unfolding find_policy remove_policy
find_policy-remove_policy e id kind k n v =
    ground (arith, first-without id n (e.prepared kind) (v.distinct kind), eq_iff k kind)

-- What the administration asks of the engine.
pub data Call : Type 0 where
  load : Policy → Call
  remove : ℕ → String → Call

module _ (opa : Opa) where
  pub run : List Call → Engine → Engine
  unfolding loads
  run [] e = e
  run (load p ∷ calls) e = run calls (loads opa e p)
  run (remove id kind ∷ calls) e = run calls (remove_policy e id kind)

  -- the same calls, on a map
  pub replay : List Call → (String → ℕ → Option PreparedPolicy) → String → ℕ → Option PreparedPolicy
  replay [] view = view
  replay (load p ∷ calls) view = replay calls (learn opa view p)
  replay (remove id kind ∷ calls) view = replay calls (forget view id kind)

  run_refines :
      (calls : List Call) (e : Engine)
      → IsValid e
      → IsValid (run calls e) × (find_policy (run calls e) ≡ replay calls (find_policy e))
  unfolding run replay
  run_refines [] e v = (v, refl)
  run_refines (load p ∷ calls) e v =
      let view = fun_ext λ kind. fun_ext λ id. find_policy-loads opa e p kind id v in
      let (valid, same) = run_refines calls (loads opa e p) (loads-IsValid opa e p v) in
      (valid, same ∙ ap (replay calls) view)
  run_refines (remove id kind ∷ calls) e v =
      let view = fun_ext λ k. fun_ext λ n. find_policy-remove_policy e id kind k n v in
      let (valid, same) =
        run_refines calls (remove_policy e id kind) (remove_policy-IsValid e id kind v) in
      (valid, same ∙ ap (replay calls) view)

  -- After any sequence of loads and removals the engine holds, under every type and identifier, what
  -- a map that is updated at one key holds, each type's policies in descending priority.
  pub engine_refines :
      (calls : List Call)
      → IsValid (run calls new_engine)
        × ((kind : String) (id : ℕ)
            → find_policy (run calls new_engine) kind id ≡ replay calls (λ k n. none) kind id)
  unfolding new_engine find_policy first
  engine_refines calls =
      let (valid, same) = run_refines calls new_engine new_engine-IsValid in
      (valid, λ kind id. ap (λ view. view kind id) same)
