-- ===== src/Policy/Service/Startup.antt =====
-- policy/service.go: LoadAll fills an empty engine with the active policies of the table.
use orion_auth_backend.Prelude.{
  ℕ, String, ◌≡◌, refl, ap, ◌∙◌, Bool, true, false, ◌&&◌, List, [], ◌∷◌, ◌++◌, Option, none, some,
  inl, inr, arith, str_eq, eq_iff, ◌==◌, ==_iff, Bool-cases, Option-cases, first, select, All,
  HasDistinct, All-append, select-All, first-absent, if◌then◌else◌,
}
use orion_auth_backend.Exec.{Result, ok, err}
use orion_auth_backend.World.{World, list_policies}
use orion_auth_backend.Policy.Engine.{
  Policy, PreparedPolicy, Opa, Engine, new_engine, assign, compile, group, load_policies,
  sort_by_priority, sorted,
}
use orion_auth_backend.Policy.Engine.Cache.{
  compile-keeps_id, new_engine-IsValid, sort_by_priority-HasDistinct, sort_by_priority-IsDescending,
  first-sort_by_priority, find_policy, is_loaded,
}
use orion_auth_backend.Policy.Service.{PolicyState, load_all, load_rows, replaced}
use orion_auth_backend.Policy.Service.Sync.{InSync, expected, compare}

append-HasDistinct :
    (pp : PreparedPolicy) (ps : List PreparedPolicy)
    → All (λ (q : PreparedPolicy). (q.id == pp.id) ≡ false) ps
    → HasDistinct (λ (p : PreparedPolicy). p.id) ps
    → HasDistinct (λ (p : PreparedPolicy). p.id) (ps ++ pp ∷ [])
append-HasDistinct pp [] fresh h = (tt, tt)
append-HasDistinct pp (q ∷ qs) (f, fs) (h, hs) = (
  All-append (λ (y : PreparedPolicy). (y.id == q.id) ≡ false) qs (pp ∷ []) h (ground arith, tt),
  append-HasDistinct pp qs fs hs,
)

abbrev or_else : Option PreparedPolicy → Option PreparedPolicy → Option PreparedPolicy
or_else none o = o
or_else (some p) o = some p

first-append :
    (n : ℕ) (ps : List PreparedPolicy) (pp : PreparedPolicy)
    → first (λ p. p.id == n) (ps ++ pp ∷ [])
      ≡ or_else (first (λ p. p.id == n) ps) (if pp.id == n then some pp else none)
unfolding first
first-append n [] pp = ground arith
first-append n (q ∷ qs) pp = ground (arith, first-append n qs pp)

or_else_nothing :
    (found o rest : Option PreparedPolicy) (test : Bool)
    → or_else (or_else found (if test && false then o else none)) rest ≡ or_else found rest
or_else_nothing none o rest true = refl
or_else_nothing none o rest false = refl
or_else_nothing (some p) o rest test = refl

select-HasDistinct :
    (rows : List Policy)
    → HasDistinct (λ (p : Policy). p.id) rows
    → HasDistinct (λ (p : Policy). p.id) (select (λ p. p.active) rows)
unfolding select
select-HasDistinct [] d = tt
select-HasDistinct (p ∷ ps) (d, ds) = elim (Bool-cases p.active) [
  | inl active ↦ simp active (
    select-All (λ (q : Policy). (q.id == p.id) ≡ false) (λ q. q.active) ps d,
    select-HasDistinct ps ds,
  )
  | inr inactive ↦ simp inactive (select-HasDistinct ps ds)
]

module _ (opa : Opa) where
  abbrev Compiles : Policy → Type 0
  Compiles p = is_loaded (compile opa p) ≡ true

  -- The first loop of LoadPolicies succeeds only when every module compiles.
  group-Compiles : (ps : List Policy) (e r : Engine) → group opa ps e ≡ ok r → All Compiles ps
  unfolding group
  group-Compiles [] e r h = tt
  group-Compiles (p ∷ ps) e r h = elim (Option-cases (compile opa p)) [
    | inl failed ↦ let k = rw failed at h in absurd (ground arith)
    | inr (pp, compiled) ↦ (
      ground arith,
      group-Compiles ps (assign e p.kind (e.prepared p.kind ++ pp ∷ [])) r (rw compiled at h),
    )
  ]

  replaced_ok :
      (w : World) (x : Result Engine) (s : PolicyState)
      → (replaced opa w (sorted opa x) s).0 ≡ ok tt
      → (e : Engine) × (x ≡ ok e)
  replaced_ok w (ok e) s h = (e, refl)
  replaced_ok w (err x) s h = absurd (ground arith)

  abbrev of_kind : String → Option Policy → Option PreparedPolicy
  of_kind kind none = none
  of_kind kind (some p) = if str_eq kind p.kind then compile opa p else none

  -- What a list of policies gives a type and an identifier.
  abbrev listed : List Policy → String → ℕ → Option PreparedPolicy
  listed ps kind n = of_kind kind (first (λ p. p.id == n) ps)

  -- No policy of the list stands in the engine.
  abbrev IsNew : Engine → List Policy → Type 0
  IsNew e ps =
      All
        (λ (p : Policy).
          (kind : String) → All (λ (q : PreparedPolicy). (q.id == p.id) ≡ false) (e.prepared kind))
        ps

  record Grouped (ps : List Policy) (e : Engine) : Type 0 where
    engine : Engine
    done : group opa ps e ≡ ok engine
    distinct : (kind : String) → HasDistinct (λ (p : PreparedPolicy). p.id) (engine.prepared kind)
    holds :
        (kind : String) (n : ℕ)
        → find_policy engine kind n ≡ or_else (find_policy e kind n) (listed ps kind n)

  module _ (p : Policy) (pp : PreparedPolicy) (e : Engine)
      (compiled : compile opa p ≡ some pp) where
    abbrev extended : Engine
    extended = assign e p.kind (e.prepared p.kind ++ pp ∷ [])

    keeps_id : pp.id ≡ p.id
    keeps_id = compile-keeps_id opa p pp compiled

    at_kind :
        (P : List PreparedPolicy → Type 0) (kind : String)
        → (kind ≡ p.kind → P (e.prepared p.kind ++ pp ∷ []))
        → P (e.prepared kind)
        → P (extended.prepared kind)
    at_kind P kind new old = elim (Bool-cases (str_eq kind p.kind)) [
      | inl same ↦ rw same (new ((eq_iff kind p.kind).0 same))
      | inr other ↦ rw other old
    ]

    extended-HasDistinct :
        ((kind : String) → All (λ (q : PreparedPolicy). (q.id == p.id) ≡ false) (e.prepared kind))
        → ((kind : String) → HasDistinct (λ (p : PreparedPolicy). p.id) (e.prepared kind))
        → (kind : String) → HasDistinct (λ (p : PreparedPolicy). p.id) (extended.prepared kind)
    extended-HasDistinct new h kind =
        at_kind (HasDistinct (λ (p : PreparedPolicy). p.id)) kind
          (λ _. append-HasDistinct pp (e.prepared p.kind) (rw keeps_id (new p.kind)) (h p.kind))
          (h kind)

    extended-IsNew :
        (ps : List Policy)
        → All (λ (q : Policy). (q.id == p.id) ≡ false) ps
        → IsNew e ps
        → IsNew extended ps
    extended-IsNew [] d new = tt
    extended-IsNew (q ∷ qs) (d, ds) (n, ns) = (
      (λ kind.
          at_kind (All (λ (r : PreparedPolicy). (r.id == q.id) ≡ false)) kind
            (λ _.
              All-append (λ (r : PreparedPolicy). (r.id == q.id) ≡ false) (e.prepared p.kind)
                (pp ∷ []) (n p.kind) (rw keeps_id (ground arith), tt))
            (n kind)),
      extended-IsNew qs ds ns,
    )

    find_policy-extended :
        (kind : String) (n : ℕ)
        → find_policy extended kind n
          ≡ or_else
              (find_policy e kind n)
              (if str_eq kind p.kind && p.id == n then some pp else none)
    unfolding find_policy
    find_policy-extended kind n = elim (Bool-cases (str_eq kind p.kind)) [
      | inl same ↦
          let k = (eq_iff kind p.kind).0 same in
          rw same (rw (← keeps_id) (rw (← k) (first-append n (e.prepared kind) pp)))
      | inr other ↦ rw other (ground arith)
    ]

  listed-cons :
      (p : Policy) (ps : List Policy) (kind : String) (n : ℕ) (found : Option PreparedPolicy)
      → All (λ (q : Policy). (q.id == p.id) ≡ false) ps
      → or_else
          (or_else found (if str_eq kind p.kind && p.id == n then compile opa p else none))
          (listed ps kind n)
        ≡ or_else found (listed (p ∷ ps) kind n)
  unfolding first
  listed-cons p ps kind n found d = elim (Bool-cases (p.id == n)) [
    | inl same ↦
        let e = (==_iff p.id n).0 same in
        let gone = first-absent (λ (q : Policy). q.id) n ps (rw e at d) in
        rw same (rw gone (ground arith))
    | inr other ↦
        rw other (or_else_nothing found (compile opa p) (listed ps kind n) (str_eq kind p.kind))
  ]

  group-Grouped :
      (ps : List Policy) (e : Engine)
      → All Compiles ps
      → HasDistinct (λ (p : Policy). p.id) ps
      → IsNew e ps
      → ((kind : String) → HasDistinct (λ (p : PreparedPolicy). p.id) (e.prepared kind))
      → Grouped ps e
  unfolding group first
  group-Grouped [] e c d new h = record {
    engine = e;
    done = refl;
    distinct = h;
    holds = λ kind n. ground arith;
  }
  group-Grouped (p ∷ ps) e (c, cs) (d, ds) (new, news) h = elim (Option-cases (compile opa p)) [
    | inl failed ↦ absurd (ground arith)
    | inr (pp, compiled) ↦
        let rest =
          group-Grouped ps (extended p pp e compiled) cs ds
            (extended-IsNew p pp e compiled ps d news)
            (extended-HasDistinct p pp e compiled new h) in
        record {
          engine = rest.engine;
          done = rw compiled rest.done;
          distinct = rest.distinct;
          holds = λ kind n.
              rest.holds kind n
              ∙ ap (λ o. or_else o (listed ps kind n)) (find_policy-extended p pp e compiled kind n)
              ∙ (rw compiled at (listed-cons p ps kind n (find_policy e kind n) d));
        }
  ]

  select_active :
      (rows : List Policy) (kind : String) (n : ℕ)
      → HasDistinct (λ (p : Policy). p.id) rows
      → listed (select (λ p. p.active) rows) kind n ≡ expected opa rows kind n
  unfolding first select
  select_active [] kind n d = refl
  select_active (p ∷ ps) kind n (d, ds) = elim (Bool-cases (p.id == n)) [
    | inl same ↦
        let e = (==_iff p.id n).0 same in
        let gone = first-absent (λ (q : Policy). q.id) n ps (rw e at d) in
        let rest = rw gone at (select_active ps kind n ds) in ground (arith, rest)
    | inr other ↦ ground (arith, select_active ps kind n ds)
  ]

  sorted-InSync :
      (s : PolicyState) (ps : List Policy) (g : Grouped ps new_engine)
      → ((kind : String) (n : ℕ) → listed ps kind n ≡ expected opa s.policies kind n)
      → InSync opa (record s {
        engine = record { prepared = λ kind. sort_by_priority opa (g.engine.prepared kind) };
      })
  unfolding find_policy new_engine first
  sorted-InSync s ps g same = record {
    valid = record {
      descending = λ kind. sort_by_priority-IsDescending opa (g.engine.prepared kind);
      distinct =
          λ kind. sort_by_priority-HasDistinct opa (g.engine.prepared kind) (g.distinct kind);
    };
    holds = λ kind n. compare opa kind _ _ λ open_row.
        first-sort_by_priority opa n (g.engine.prepared kind) (g.distinct kind)
        ∙ g.holds kind n
        ∙ same kind n;
  }

  IsNew-new_engine : (ps : List Policy) → IsNew new_engine ps
  unfolding new_engine
  IsNew-new_engine [] = tt
  IsNew-new_engine (p ∷ ps) = ((λ kind. tt), IsNew-new_engine ps)

  load_rows-InSync :
      (w : World) (s : PolicyState) (ps : List Policy)
      → s.engine ≡ new_engine
      → HasDistinct (λ (p : Policy). p.id) ps
      → ((kind : String) (n : ℕ) → listed ps kind n ≡ expected opa s.policies kind n)
      → (load_rows opa w ps s).0 ≡ ok tt
      → InSync opa (load_rows opa w ps s).1
  unfolding load_policies new_engine find_policy first
  load_rows-InSync w s [] empty d same done = record {
    valid = rw empty new_engine-IsValid;
    holds = λ kind n. compare opa kind _ _ λ open_row. rw empty (same kind n);
  }
  load_rows-InSync w s (p ∷ ps) empty d same done =
      let (r, grouped) = replaced_ok w (group opa (p ∷ ps) new_engine) s done in
      let g =
        group-Grouped (p ∷ ps) new_engine (group-Compiles (p ∷ ps) new_engine r grouped) d
          (IsNew-new_engine (p ∷ ps)) new_engine-IsValid.distinct in
      rw g.done (sorted-InSync s (p ∷ ps) g same)

  -- LoadAll, when it succeeds over an empty engine, brings it in step with the table.
  pub load_all-InSync :
      (w : World) (s : PolicyState)
      → s.engine ≡ new_engine
      → HasDistinct (λ (p : Policy). p.id) s.policies
      → (load_all opa w s).0 ≡ ok tt
      → InSync opa (load_all opa w s).1
  unfolding load_all
  load_all-InSync w s empty d done = elim (Bool-cases (w.breaks list_policies)) [
    | inl broken ↦ let k = rw broken at done in absurd (ground arith)
    | inr works ↦
        let k = rw works at done in
        rw works (
          load_rows-InSync w s (select (λ p. p.active) s.policies) empty
            (select-HasDistinct s.policies d) (λ kind n. select_active s.policies kind n d) k)
  ]
