-- ===== src/Policy/Service/History.antt =====
-- policy/service.go over time: LoadAll at the start, then any calls of the administration.
use orion_auth_backend.Prelude.{ℕ, ◌≡◌, List, [], ◌∷◌, HasDistinct}
use orion_auth_backend.Exec.{ok}
use orion_auth_backend.World.{World}
use orion_auth_backend.Policy.Engine.{Policy, Opa, new_engine}
use orion_auth_backend.Policy.Service.{
  PolicyState, CreatePolicyInput, UpdatePolicyInput, create, update, delete, load_all,
}
use orion_auth_backend.Policy.Service.Sync.{InSync}
use orion_auth_backend.Policy.Service.Operations.{create-InSync, update-InSync, delete-InSync}
use orion_auth_backend.Policy.Service.Startup.{load_all-InSync}

pub data AdminCall : Type 0 where
  creates : CreatePolicyInput → AdminCall
  updates : ℕ → UpdatePolicyInput → AdminCall
  deletes : ℕ → AdminCall

module _ (opa : Opa) (w : World) where
  -- The calls one after the other, each whatever the one before returned.
  unfoldable pub administer : List AdminCall → PolicyState → PolicyState
  unfolding create update delete
  administer [] s = s
  administer (creates input ∷ calls) s = administer calls (create opa w input s).1
  administer (updates id input ∷ calls) s = administer calls (update opa w id input s).1
  administer (deletes id ∷ calls) s = administer calls (delete opa w id s).1

  administer-InSync :
      (calls : List AdminCall) (s : PolicyState) → InSync opa s → InSync opa (administer calls s)
  unfolding administer
  administer-InSync [] s h = h
  administer-InSync (creates input ∷ calls) s h =
      administer-InSync calls (create opa w input s).1 (create-InSync opa w input s h)
  administer-InSync (updates id input ∷ calls) s h =
      administer-InSync calls (update opa w id input s).1 (update-InSync opa w id input s h)
  administer-InSync (deletes id ∷ calls) s h =
      administer-InSync calls (delete opa w id s).1 (delete-InSync opa w id s h)

  -- A service starts with an empty engine, over a table whose identifiers differ, and its LoadAll
  -- succeeds. Then after any calls of the administration, returning or failing, the engine holds under
  -- every type and identifier the policy of that row, compiled, when the row is active and of that
  -- type, and nothing otherwise; each type's policies stand in descending priority. What it holds for
  -- an active row whose module does not compile is left open, since a failure of LoadPolicy is only
  -- logged.
  pub administered-InSync :
      (calls : List AdminCall) (s : PolicyState)
      → s.engine ≡ new_engine
      → HasDistinct (λ (p : Policy). p.id) s.policies
      → (load_all opa w s).0 ≡ ok tt
      → InSync opa (administer calls (load_all opa w s).1)
  administered-InSync calls s empty d done =
      administer-InSync calls (load_all opa w s).1 (load_all-InSync opa w s empty d done)
