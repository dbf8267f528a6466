-- ===== src/Password/Stored.antt =====
-- password/service.go: the policy in the settings table, as the text of its JSON.
use orion_auth_backend.Prelude.{
  String, ◌≡◌, ◌≢◌, sym, ap, ◌∙◌, false, ◌||◌, Option, none, some, inl, inr, str_eq, eq_iff, arith,
  Bool-cases, Option-cases, if◌then◌else◌,
}
use orion_auth_backend.Errors.{database}
use orion_auth_backend.Exec.{Exec, ok, err}
use orion_auth_backend.World.{World, find_setting, save_setting}
use orion_auth_backend.Password.{PasswordPolicy, default_policy, normalize}
use orion_auth_backend.Password.Bounds.{
  IsNormal, normalize-IsNormal, default-IsNormal, normalize_twice,
}

-- json.Marshal and json.Unmarshal on a policy.
pub record PolicyCodec : Type 0 where
  pub marshal : PasswordPolicy → Option String
  pub unmarshal : String → Option PasswordPolicy
  pub reads_back : (p : PasswordPolicy) (t : String) → marshal p ≡ some t → unmarshal t ≡ some p
  pub never_empty : (p : PasswordPolicy) → marshal p ≢ some ""

module _ (w : World) (codec : PolicyCodec) where
  abbrev or_default : Option PasswordPolicy → PasswordPolicy
  or_default none = default_policy
  or_default (some p) = normalize p

  -- Get, from the text under the key, empty where there is none
  unfoldable pub get_stored : String → PasswordPolicy
  unfolding normalize
  get_stored raw =
      if w.breaks find_setting || str_eq raw ""
      then default_policy
      else or_default (codec.unmarshal raw)

  abbrev saved : Option String → Exec String Unit
  saved none s = (err database, s)
  saved (some t) s = if w.breaks save_setting then (err database, s) else (ok tt, t)

  -- Update
  unfoldable pub update_stored : PasswordPolicy → Exec String Unit
  unfolding normalize
  update_stored p = saved (codec.marshal (normalize p))

  -- Whatever text is stored, and whether or not it can be read, the policy is within the bounds.
  pub get_stored-IsNormal : (raw : String) → IsNormal (get_stored raw)
  unfolding get_stored
  get_stored-IsNormal raw = elim (Bool-cases (w.breaks find_setting || str_eq raw "")) [
    | inl absent ↦ rw absent default-IsNormal
    | inr present ↦ rw present (parsed-IsNormal (codec.unmarshal raw))
  ]
    where
      parsed-IsNormal : (o : Option PasswordPolicy) → IsNormal (or_default o)
      parsed-IsNormal none = default-IsNormal
      parsed-IsNormal (some p) = normalize-IsNormal p

  -- A policy that was stored is read back normalized, when the read does not fail.
  pub get_stored-update_stored :
      (p : PasswordPolicy) (raw raw' : String)
      → update_stored p raw ≡ (ok tt, raw')
      → w.breaks find_setting ≡ false
      → get_stored raw' ≡ normalize p
  unfolding update_stored get_stored
  get_stored-update_stored p raw raw' h reads = elim (Option-cases (codec.marshal (normalize p))) [
    | inl fails ↦ let k = rw fails at h in absurd (ground arith)
    | inr (t, written) ↦
        let k = rw written at h in
        let same : t ≡ raw' = ground arith in
        let back = codec.reads_back (normalize p) t written in
        let full : str_eq raw' "" ≡ false = elim (Bool-cases (str_eq raw' "")) [
          | inl blank ↦ absurd (
              codec.never_empty (normalize p) (written ∙ ap some (same ∙ (eq_iff raw' "").0 blank)))
          | inr other ↦ other
        ] in
        let found = ap codec.unmarshal (sym same) ∙ back in
        rw reads (rw full (rw found (normalize_twice p)))
  ]
