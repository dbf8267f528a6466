-- ===== src/Policy/Service/Operations.antt =====
-- policy/service.go: CreatePolicy, UpdatePolicy and DeletePolicy keep the engine in step with the
-- table, whether they return or fail.
use orion_auth_backend.Prelude.{
  ℕ, String, ◌≡◌, refl, true, ◌||◌, some, inl, inr, arith, ◌==◌, ==_iff, Bool-cases, first,
  first_passes, save_row-found,
}
use orion_auth_backend.Exec.{ok, bind_keeps, bind_reads, guard_keeps, optional, ◌>>=◌}
use orion_auth_backend.World.{World, create_policy, update_policy, delete_policy}
use orion_auth_backend.Policy.Engine.{Policy, Opa}
use orion_auth_backend.Policy.Service.{
  PolicyState, CreatePolicyInput, UpdatePolicyInput, new_policy, changed, clashes, taken,
  new_policy_id, store_policy, create, get_policy, save_and_cache, update, delete_and_drop, delete,
  policy_by_name,
}
use orion_auth_backend.Policy.Service.Sync.{
  InSync, add_active-InSync, save_active-InSync, save_inactive-InSync, delete_row-InSync,
}

module _ (opa : Opa) (w : World) where
  -- The row is stored and loaded as an active one, whatever the input asked for.
  store_policy-InSync :
      (row : Policy) (s : PolicyState) → InSync opa s → InSync opa (store_policy opa w row s).1
  unfolding store_policy
  store_policy-InSync row s h =
      elim (Bool-cases (w.breaks create_policy || clashes row s.policies)) [
        | inl refused ↦ rw refused h
        | inr free ↦
            rw free (add_active-InSync opa (record row { active = true }) s (ground arith) refl h)
      ]

  save_and_cache-InSync :
      (row old : Policy) (s : PolicyState)
      → first (λ p. p.id == row.id) s.policies ≡ some old
      → old.kind ≡ row.kind
      → InSync opa s
      → InSync opa (save_and_cache opa w row s).1
  unfolding save_and_cache
  save_and_cache-InSync row old s f k h =
      let updates = save_row-found (λ (p : Policy). p.id == row.id) row s.policies old f in
      elim (Bool-cases (w.breaks update_policy || taken row s.policies)) [
        | inl refused ↦ rw refused h
        | inr free ↦ elim (Bool-cases row.active) [
          | inl active ↦
              rw free (simp active (rw updates (save_active-InSync opa row old s f k h active)))
          | inr inactive ↦
              rw free
                (simp inactive (rw updates (save_inactive-InSync opa row old s f k h inactive)))
        ]
      ]

  delete_and_drop-InSync :
      (row : Policy) (id : ℕ) (s : PolicyState)
      → first (λ p. p.id == id) s.policies ≡ some row
      → InSync opa s
      → InSync opa (delete_and_drop opa w id row.kind s).1
  unfolding delete_and_drop
  delete_and_drop-InSync row id s f h = elim (Bool-cases (w.breaks delete_policy)) [
    | inl refused ↦ rw refused h
    | inr free ↦ rw free (delete_row-InSync opa row id s f h)
  ]

  get_policy_keeps : (id : ℕ) (s : PolicyState) → (get_policy opa w id s).1 ≡ s
  unfolding get_policy
  get_policy_keeps id s = ground arith

  get_policy_finds :
      (id : ℕ) (s : PolicyState) (p : Policy)
      → get_policy opa w id s ≡ (ok p, s)
      → first (λ p. p.id == id) s.policies ≡ some p
  unfolding get_policy
  get_policy_finds id s p h = ground arith

  policy_by_name_reads :
      (name : String) (s : PolicyState) → (optional (policy_by_name opa w name) s).1 ≡ s
  unfolding policy_by_name ◌>>=◌
  policy_by_name_reads name s = ground arith

  new_policy_id-InSync : (s : PolicyState) → InSync opa s → InSync opa (new_policy_id opa w s).1
  unfolding new_policy_id
  new_policy_id-InSync s h = record { valid = h.valid; holds = h.holds }

  changed_keeps_id :
      (id : ℕ) (input : UpdatePolicyInput) (s : PolicyState) (p : Policy)
      → first (λ p. p.id == id) s.policies ≡ some p
      → (changed input p).id ≡ id
  changed_keeps_id id input s p found =
      let hit = rw found at (first_passes (λ (p : Policy). p.id == id) s.policies) in
      ground (arith, ==_iff p.id id)

  changed_keeps_kind : (input : UpdatePolicyInput) (p : Policy) → p.kind ≡ (changed input p).kind
  changed_keeps_kind input p = ground arith

  -- CreatePolicy keeps the engine in step with the table.
  pub create-InSync :
      (input : CreatePolicyInput) (s : PolicyState)
      → InSync opa s
      → InSync opa (create opa w input s).1
  unfolding create
  create-InSync input s h =
      bind_reads (InSync opa) (optional (policy_by_name opa w input.name)) _ s
        (policy_by_name_reads input.name s) h
        λ existing _. guard_keeps (InSync opa) _ _ _ s h λ _.
          guard_keeps (InSync opa) _ _ _ s h λ accepted.
            bind_keeps (InSync opa) (new_policy_id opa w) _ s (new_policy_id-InSync s h) λ id _.
              store_policy-InSync (record (new_policy input) { id = id }) _
                (new_policy_id-InSync s h)

  -- UpdatePolicy keeps the engine in step with the table.
  pub update-InSync :
      (id : ℕ) (input : UpdatePolicyInput) (s : PolicyState)
      → InSync opa s
      → InSync opa (update opa w id input s).1
  unfolding update
  update-InSync id input s h =
      bind_reads (InSync opa) (get_policy opa w id) _ s (get_policy_keeps id s) h λ p e.
        guard_keeps (InSync opa) _ _ _ s h λ valid.
          let found = get_policy_finds id s p e in
          save_and_cache-InSync (changed input p) p s
            (rw (changed_keeps_id id input s p found) found) (changed_keeps_kind input p) h

  -- DeletePolicy keeps the engine in step with the table.
  pub delete-InSync : (id : ℕ) (s : PolicyState) → InSync opa s → InSync opa (delete opa w id s).1
  unfolding delete
  delete-InSync id s h =
      bind_reads (InSync opa) (get_policy opa w id) _ s (get_policy_keeps id s) h
        λ p e. let found = get_policy_finds id s p e in delete_and_drop-InSync p id s found h
