-- ===== src/Policy/Engine/Verdict.antt =====
-- policy/engine.go: Evaluate against the policy that decides.
use orion_auth_backend.Prelude.{
  String, ◌≡◌, refl, sym, ◌∙◌, Bool, true, false, List, [], ◌∷◌, Option, none, some, inl, inr,
  arith, Bool-cases, Option-cases, first, first_passes, All, All-imp, IsDescending, ltb_ℤ,
}
use orion_auth_backend.Exec.{Result, ok}
use orion_auth_backend.Oauth.Modify.{Fields, end}
use orion_auth_backend.Policy.Engine.{
  PreparedPolicy, Opa, Engine, EvalResult, Denial, broken, passes, denies, denial, collect, allowed,
  denied, after, evaluate_each, evaluate,
}
use orion_auth_backend.Policy.Engine.Cache.{IsValid}

-- What all policies together modify.
unfoldable pub collect_all : List PreparedPolicy → Fields → Fields → Fields
collect_all [] input merged = merged
collect_all (p ∷ ps) input merged = collect_all ps input (collect p input merged)

abbrev is_stop : Denial → Bool
is_stop passes = false
is_stop _ = true

not_stop : (d : Denial) → is_stop d ≡ false → d ≡ passes
not_stop d h = ground arith

stop_denies :
    (p : PreparedPolicy) (d : Denial) (rest : Result EvalResult) (r : EvalResult)
    → is_stop d ≡ true
    → after p d rest ≡ ok r
    → r.deny ≡ false
    → ⊥
stop_denies p broken rest r stop h n = ground arith
stop_denies p passes rest r stop h n = ground arith
stop_denies p (denies reason) rest r stop h n =
    let same : denied p reason ≡ r = ground arith in ground arith

module _ (opa : Opa) where
  -- The policy denies the input or fails on it.
  pub stops : Fields → PreparedPolicy → Bool
  stops input p = is_stop (denial opa p input)

  abbrev pub by_stop : Fields → Fields → Option PreparedPolicy → Result EvalResult
  by_stop input merged none = ok (allowed merged)
  by_stop input merged (some p) = after p (denial opa p input) (ok (allowed merged))

  after_pass :
      (p : PreparedPolicy) (d : Denial) (rest : Result EvalResult)
      → is_stop d ≡ false
      → after p d rest ≡ rest
  after_pass p broken rest h = ground arith
  after_pass p passes rest h = refl
  after_pass p (denies r) rest h = ground arith

  after_stop :
      (p : PreparedPolicy) (d : Denial) (rest other : Result EvalResult)
      → is_stop d ≡ true
      → after p d rest ≡ after p d other
  after_stop p broken rest other h = refl
  after_stop p passes rest other h = ground arith
  after_stop p (denies r) rest other h = refl

  evaluate_each-by_stop :
      (ps : List PreparedPolicy) (input merged : Fields)
      → evaluate_each opa ps input merged
        ≡ by_stop input (collect_all ps input merged) (first (stops input) ps)
  unfolding evaluate_each first collect_all stops
  evaluate_each-by_stop [] input merged = refl
  evaluate_each-by_stop (p ∷ ps) input merged = elim (Bool-cases (is_stop (denial opa p input))) [
    | inl stop ↦ rw stop (after_stop p (denial opa p input) _ _ stop)
    | inr pass ↦ rw pass (
        after_pass p (denial opa p input) _ pass
        ∙ evaluate_each-by_stop ps input (collect p input merged))
  ]

  -- The first policy of the type that denies the input or fails on it decides; when there is none,
  -- the input is allowed with what all policies together modify.
  pub evaluate-by_stop :
      (e : Engine) (kind : String) (input : Fields)
      → evaluate opa e kind input
        ≡ by_stop input
            (collect_all (e.prepared kind) input end)
            (first (stops input) (e.prepared kind))
  unfolding evaluate
  evaluate-by_stop e kind input = evaluate_each-by_stop (e.prepared kind) input end

  pub first_of_descending :
      (ps : List PreparedPolicy) (test : PreparedPolicy → Bool) (p : PreparedPolicy)
      → IsDescending (λ (q : PreparedPolicy). q.priority) ps
      → first test ps ≡ some p
      → All (λ (q : PreparedPolicy). test q ≡ true → ltb_ℤ p.priority q.priority ≡ false) ps
  unfolding first
  first_of_descending [] test p d h = tt
  first_of_descending (q ∷ qs) test p (below, d) h = elim (Bool-cases (test q)) [
    | inl hit ↦
        let same : q ≡ p = ground arith in
        (
          (λ _. ground arith),
          All-imp (λ (r : PreparedPolicy). ltb_ℤ q.priority r.priority ≡ false)
              (λ (r : PreparedPolicy). test r ≡ true → ltb_ℤ p.priority r.priority ≡ false)
              (λ r low _. rw (← same) low) qs below,
        )
    | inr miss ↦ ((λ hit. ground arith), first_of_descending qs test p d (rw miss at h))
  ]

  pub first-none-All :
      (test : PreparedPolicy → Bool) (ps : List PreparedPolicy)
      → first test ps ≡ none
      → All (λ (q : PreparedPolicy). test q ≡ false) ps
  unfolding first
  first-none-All test [] h = tt
  first-none-All test (q ∷ qs) h = elim (Bool-cases (test q)) [
    | inl hit ↦ absurd (ground arith)
    | inr miss ↦ (miss, first-none-All test qs (rw miss at h))
  ]

  -- What a denial comes from: a policy that denies, and no policy above it stops the evaluation.
  pub record IsDeniedBy (ps : List PreparedPolicy) (input : Fields) (r : EvalResult) : Type 0 where
    pub policy : PreparedPolicy
    pub found : first (stops input) ps ≡ some policy
    pub says : denial opa policy input ≡ denies r.deny_reason
    pub named : r.policy_name ≡ policy.name
    pub highest :
        All
          (λ (q : PreparedPolicy). stops input q ≡ true → ltb_ℤ policy.priority q.priority ≡ false)
          ps

  decided_by :
      (p : PreparedPolicy) (d : Denial) (merged : Fields) (r : EvalResult)
      → after p d (ok (allowed merged)) ≡ ok r
      → r.deny ≡ true
      → (d ≡ denies r.deny_reason) × (r.policy_name ≡ p.name)
  decided_by p broken merged r h y = ground arith
  decided_by p passes merged r h y =
      let same : allowed merged ≡ r = ground arith in absurd (ground arith)
  decided_by p (denies reason) merged r h y =
      let same : denied p reason ≡ r = ground arith in ground arith

  -- A denial comes from the first policy that stops the evaluation, with that policy's reason and
  -- name, and no policy of the type with a higher priority denies the input or fails on it.
  pub evaluate-IsDeniedBy :
      (e : Engine) (kind : String) (input : Fields) (r : EvalResult)
      → IsValid e
      → evaluate opa e kind input ≡ ok r
      → r.deny ≡ true
      → IsDeniedBy (e.prepared kind) input r
  evaluate-IsDeniedBy e kind input r v h y =
      elim (Option-cases (first (stops input) (e.prepared kind))) [
        | inl none_stops ↦
            let same = rw none_stops at (sym (evaluate-by_stop e kind input) ∙ h) in
            absurd (ground arith)
        | inr (p, hit) ↦
            let same = rw hit at (sym (evaluate-by_stop e kind input) ∙ h) in
            let (says, named) = decided_by p (denial opa p input) _ r same y in
            record {
              policy = p;
              found = hit;
              says = says;
              named = named;
              highest =
                  first_of_descending (e.prepared kind) (stops input) p (v.descending kind) hit;
            }
      ]

  -- An input is allowed only when no policy of the type denies it or fails on it.
  pub evaluate_allows-All :
      (e : Engine) (kind : String) (input : Fields) (r : EvalResult)
      → evaluate opa e kind input ≡ ok r
      → r.deny ≡ false
      → All (λ (q : PreparedPolicy). denial opa q input ≡ passes) (e.prepared kind)
  unfolding stops
  evaluate_allows-All e kind input r h n =
      elim (Option-cases (first (stops input) (e.prepared kind))) [
        | inl none_stops ↦
            All-imp (λ (q : PreparedPolicy). stops input q ≡ false)
              (λ (q : PreparedPolicy). denial opa q input ≡ passes)
              (λ q still. not_stop (denial opa q input) still) (e.prepared kind)
              (first-none-All (stops input) (e.prepared kind) none_stops)
        | inr (p, hit) ↦
            let same = rw hit at (sym (evaluate-by_stop e kind input) ∙ h) in
            let stop = rw hit at (first_passes (stops input) (e.prepared kind)) in
            absurd (stop_denies p (denial opa p input) _ r stop same n)
      ]

  -- What an evaluation that allows returns.
  pub by_stop_allows :
      (e : Engine) (kind : String) (input : Fields) (r : EvalResult)
      → evaluate opa e kind input ≡ ok r
      → r.deny ≡ false
      → allowed (collect_all (e.prepared kind) input end) ≡ r
  unfolding stops
  by_stop_allows e kind input r h n = elim (Option-cases (first (stops input) (e.prepared kind))) [
    | inl none_stops ↦
        let same = rw none_stops at (sym (evaluate-by_stop e kind input) ∙ h) in ground arith
    | inr (p, hit) ↦
        let same = rw hit at (sym (evaluate-by_stop e kind input) ∙ h) in
        let stop = rw hit at (first_passes (stops input) (e.prepared kind)) in
        absurd (stop_denies p (denial opa p input) _ r stop same n)
  ]
