-- ===== src/Policy/Service/Sync.antt =====
-- policy/service.go: what the engine holds of the table after an operation.
use orion_auth_backend.Prelude.{
  ℕ, String, ◌≡◌, refl, ◌∙◌, true, false, not, ◌&&◌, List, [], ◌∷◌, Option, none, some, inl, inr,
  arith, str_eq, eq_iff, ◌==◌, ==_iff, Bool, Bool-cases, first, select, update_where, any,
  first-update_where, first_passes, if◌then◌else◌, updated, found_passes,
}
use orion_auth_backend.Policy.Engine.{Policy, PreparedPolicy, Opa, compile, remove_policy}
use orion_auth_backend.Policy.Engine.Cache.{
  IsValid, loads, loads-IsValid, find_policy, find_policy-loads, find_policy-remove_policy,
  remove_policy-IsValid, is_loaded,
}
use orion_auth_backend.Policy.Service.{PolicyState, clashes}

module _ (opa : Opa) where
  abbrev when_active : String → Option Policy → Option PreparedPolicy
  when_active kind none = none
  when_active kind (some p) = if p.active && str_eq kind p.kind then compile opa p else none

  -- What the table asks the engine to hold under a type and an identifier.
  abbrev pub expected : List Policy → String → ℕ → Option PreparedPolicy
  expected rows kind id = when_active kind (first (λ p. p.id == id) rows)

  -- The row asks for a policy whose module does not compile: LoadPolicy fails, which is only logged,
  -- and the engine keeps what it had.
  abbrev pub fails : String → Option Policy → Bool
  fails kind none = false
  fails kind (some p) = p.active && str_eq kind p.kind && not (is_loaded (compile opa p))

  -- Under every type and identifier the engine holds, compiled, the active policy of that row, and
  -- nothing where the row is absent, inactive or of another type; what it holds for an active row
  -- whose module does not compile does not count.
  pub record InSync (s : PolicyState) : Type 0 where
    pub valid : IsValid s.engine
    pub holds :
        (kind : String) (id : ℕ)
        → (if fails kind (first (λ p. p.id == id) s.policies)
            then none
            else find_policy s.engine kind id)
          ≡ expected s.policies kind id

  -- It is enough to compare where the module of the row compiles.
  pub compare :
      (kind : String) (row : Option Policy) (held : Option PreparedPolicy)
      → (fails kind row ≡ false → held ≡ when_active kind row)
      → (if fails kind row then none else held) ≡ when_active kind row
  compare kind none held same = same refl
  compare kind (some p) held same = elim (Bool-cases (fails kind (some p))) [
    | inl failed ↦ rw failed (ground arith)
    | inr compiled ↦ rw compiled (same compiled)
  ]

  holds_at :
      (s : PolicyState) (kind : String) (id : ℕ)
      → InSync s
      → fails kind (first (λ p. p.id == id) s.policies) ≡ false
      → find_policy s.engine kind id ≡ expected s.policies kind id
  holds_at s kind id h compiled = rw compiled at (h.holds kind id)

  pub no_clash :
      (row : Policy) (rows : List Policy)
      → clashes row rows ≡ false
      → first (λ p. p.id == row.id) rows ≡ none
  unfolding any first
  no_clash row [] h = refl
  no_clash row (p ∷ ps) h = ground (arith, no_clash row ps)

  found_saved :
      (row old : Policy) (rows : List Policy) (id : ℕ)
      → first (λ p. p.id == row.id) rows ≡ some old
      → first (λ p. p.id == id) (update_where (λ p. p.id == row.id) (λ _. row) rows)
        ≡ (if row.id == id then some row else first (λ p. p.id == id) rows)
  found_saved row old rows id f =
      let moved =
        first-update_where (λ (p : Policy). p.id == id) (λ p. p.id == row.id) (λ _. row) rows
          (λ x hit. ground (arith, ==_iff x.id row.id)) in
      let hit = first_passes (λ (p : Policy). p.id == id) rows in
      let was = first_passes (λ (p : Policy). p.id == row.id) rows in
      elim (Bool-cases (row.id == id)) [
        | inl same ↦
            let e = (==_iff row.id id).0 same in
            let g : first (λ (p : Policy). p.id == id) rows ≡ some old = rw (← e) f in
            let k = rw g at moved in let n = rw f at was in rw same (k ∙ ground (arith, n))
        | inr other ↦ rw other (moved ∙ kept_row (first (λ p. p.id == id) rows) hit other)
      ]
    where
      kept_row :
          (o : Option Policy)
          → found_passes (λ (p : Policy). p.id == id) o ≡ true
          → (row.id == id) ≡ false
          → updated (λ (p : Policy). p.id == row.id) (λ _. row) o ≡ o
      kept_row none hit other = refl
      kept_row (some x) hit other = ground arith

  found_left :
      (rows : List Policy) (n id : ℕ)
      → first (λ p. p.id == id) (select (λ p. not (p.id == n)) rows)
        ≡ (if n == id then none else first (λ p. p.id == id) rows)
  unfolding first select
  found_left [] n id = ground arith
  found_left (p ∷ ps) n id = ground (arith, found_left ps n id)

  pub add_active-InSync :
      (row : Policy) (s : PolicyState)
      → clashes row s.policies ≡ false
      → row.active ≡ true
      → InSync s
      → InSync (record s { policies = row ∷ s.policies; engine = loads opa s.engine row })
  unfolding first
  add_active-InSync row s free active h = record {
    valid = loads-IsValid opa s.engine row h.valid;
    holds = λ kind id. compare kind _ _ λ open_row.
        find_policy-loads opa s.engine row kind id h.valid
        ∙ ground (
          arith,
          holds_at s kind id h,
          open_row,
          no_clash row s.policies free,
          eq_iff kind row.kind,
          ==_iff row.id id,
        );
  }

  pub add_inactive-InSync :
      (row : Policy) (s : PolicyState)
      → clashes row s.policies ≡ false
      → row.active ≡ false
      → InSync s
      → InSync (record s { policies = row ∷ s.policies })
  unfolding first
  add_inactive-InSync row s free inactive h = record {
    valid = h.valid;
    holds = λ kind id. compare kind _ _ λ open_row.
        ground
          (arith, holds_at s kind id h, open_row, no_clash row s.policies free, ==_iff row.id id);
  }

  module _ (row old : Policy) (s : PolicyState)
      (found : first (λ p. p.id == row.id) s.policies ≡ some old) (same_kind : old.kind ≡ row.kind)
      (h : InSync s) where
    pub save_active-InSync :
        row.active ≡ true
        → InSync (record s {
          policies = update_where (λ p. p.id == row.id) (λ _. row) s.policies;
          engine = loads opa s.engine row;
        })
    save_active-InSync active = record {
      valid = loads-IsValid opa s.engine row h.valid;
      holds = λ kind id. compare kind _ _ λ open_row.
          find_policy-loads opa s.engine row kind id h.valid
          ∙ ground (
            arith,
            holds_at s kind id h,
            open_row,
            found_saved row old s.policies id found,
            eq_iff kind row.kind,
            ==_iff row.id id,
          );
    }

    pub save_inactive-InSync :
        row.active ≡ false
        → InSync (record s {
          policies = update_where (λ p. p.id == row.id) (λ _. row) s.policies;
          engine = remove_policy s.engine row.id row.kind;
        })
    save_inactive-InSync inactive = record {
      valid = remove_policy-IsValid s.engine row.id row.kind h.valid;
      holds = λ kind id. compare kind _ _ λ open_row.
          find_policy-remove_policy s.engine row.id row.kind kind id h.valid
          ∙ ground (
            arith,
            holds_at s kind id h,
            open_row,
            found_saved row old s.policies id found,
            eq_iff kind row.kind,
            ==_iff row.id id,
          );
    }

  pub delete_row-InSync :
      (row : Policy) (id : ℕ) (s : PolicyState)
      → first (λ p. p.id == id) s.policies ≡ some row
      → InSync s
      → InSync (record s {
        policies = select (λ p. not (p.id == id)) s.policies;
        engine = remove_policy s.engine id row.kind;
      })
  delete_row-InSync row id s found h = record {
    valid = remove_policy-IsValid s.engine id row.kind h.valid;
    holds = λ kind n. compare kind _ _ λ open_row.
        find_policy-remove_policy s.engine id row.kind kind n h.valid
        ∙ ground (
          arith,
          holds_at s kind n h,
          open_row,
          found_left s.policies id n,
          found,
          eq_iff kind row.kind,
          ==_iff id n,
        );
  }
