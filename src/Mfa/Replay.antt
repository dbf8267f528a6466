-- ===== src/Mfa/Replay.antt =====
-- What a code that was accepted does to the next one.
use orion_auth_backend.Prelude.{
  ℕ, ◌≤◌, ◌<◌, String, ◌≡◌, refl, sym, ap, ◌∙◌, Bool, true, false, ◌&&◌, List, [], ◌∷◌, none, some,
  arith, first, first-save_row, first_passes, save_row, contains, str_eq, eq_iff, ◌==◌,
  Option-cases, Bool-cases, inl, inr,
}
use orion_auth_backend.Errors.{unauthorized}
use orion_auth_backend.Exec.{Result, ok, err, ◌>>=◌}
use orion_auth_backend.Model.{MfaMethod, State}
use orion_auth_backend.World.{World, update_mfa, find_mfa}
use orion_auth_backend.Oauth.Scopes.Laws.{IsDistinct}
use orion_auth_backend.Mfa.{
  Totp, current_step, remove_code, accept_totp, accept_backup, validate_method, validate_code,
  find_verified_by_user, update_method,
}

-- The row that the service reads for a user.
abbrev pub is_method_of : ℕ → MfaMethod → Bool
is_method_of user m = m.user_id == user && m.verified

abbrev pub stepped : World → MfaMethod → MfaMethod
stepped w m = record m { last_used_totp_step = current_step w }

abbrev with_method : MfaMethod → State → State
with_method row s = record s {
  db = record s.db { mfa_methods = save_row (λ m. m.id == row.id) row s.mfa_methods };
}

module _ (totp : Totp) (user : ℕ) (m : MfaMethod) where
  -- The call is the check of the row that is found.
  validate_code-eq-method :
      (w : World) (code : String) (s : State)
      → w.breaks find_mfa ≡ false
      → first (is_method_of user) s.mfa_methods ≡ some m
      → validate_code w totp user code s ≡ validate_method w totp code (some m) s
  unfolding validate_code find_verified_by_user ◌>>=◌
  validate_code-eq-method w code s works row = ground arith

  -- A row that is saved back is the one that is found next.
  saved_method :
      (row : MfaMethod) (s : State)
      → first (is_method_of user) s.mfa_methods ≡ some m
      → row.id ≡ m.id
      → row.user_id ≡ m.user_id
      → row.verified ≡ m.verified
      → first (is_method_of user) (with_method row s).mfa_methods ≡ some row
  saved_method row s h same owner state =
      let passes = first_passes (is_method_of user) s.mfa_methods in
      first-save_row (is_method_of user) (λ (x : MfaMethod). x.id == row.id) row s.mfa_methods m h
        (ground arith) (ground arith)

  totp_state :
      (w : World) (code : String) (s s' : State)
      → totp.validate w.wall code m.secret ≡ true
      → validate_method w totp code (some m) s ≡ (ok true, s')
      → s' ≡ with_method (stepped w m) s
  unfolding validate_method accept_totp update_method ◌>>=◌
  totp_state w code s s' valid h = ground arith

  stale_step :
      (later : World) (code : String) (row : MfaMethod) (s : State)
      → totp.validate later.wall code row.secret ≡ true
      → current_step later ≤ row.last_used_totp_step
      → (validate_method later totp code (some row) s).0
        ≡ err (unauthorized "TOTP code already used; wait for the next code")
  unfolding validate_method accept_totp ◌>>=◌
  stale_step later code row s valid stale = ground arith

  fresh_step :
      (w : World) (code : String) (row : MfaMethod) (s : State)
      → w.breaks update_mfa ≡ false
      → totp.validate w.wall code row.secret ≡ true
      → row.last_used_totp_step < current_step w
      → validate_method w totp code (some row) s ≡ (ok true, with_method (stepped w row) s)
  unfolding validate_method accept_totp update_method ◌>>=◌
  fresh_step w code row s updates valid unused = ground arith

-- After a TOTP code was accepted, every TOTP code of the user that is tried in the same step of the
-- clock is refused, the same one and any other, when the driver fails no lookup.
pub one_totp_per_step :
    (w later : World) (totp : Totp) (user : ℕ) (code code' : String) (m : MfaMethod) (s s' : State)
    → w.breaks find_mfa ≡ false
    → later.breaks find_mfa ≡ false
    → first (is_method_of user) s.mfa_methods ≡ some m
    → totp.validate w.wall code m.secret ≡ true
    → totp.validate later.wall code' m.secret ≡ true
    → current_step later ≤ current_step w
    → validate_code w totp user code s ≡ (ok true, s')
    → (validate_code later totp user code' s').0
      ≡ err (unauthorized "TOTP code already used; wait for the next code")
one_totp_per_step w later totp user code code' m s s' works works' row valid valid' step h =
    let accepted = sym (validate_code-eq-method totp user m w code s works row) ∙ h in
    let written = totp_state totp user m w code s s' valid accepted in
    let row' : first (is_method_of user) s'.mfa_methods ≡ some (stepped w m) =
      ap (λ (t : State). first (is_method_of user) t.mfa_methods) written
      ∙ saved_method totp user m (stepped w m) s row refl refl refl in
    ap (λ (p : Result Bool × State). p.0)
      (validate_code-eq-method totp user (stepped w m) later code' s' works' row')
    ∙ stale_step totp user m later code' (stepped w m) s' valid' step

-- A code that was accepted in one step of the clock is accepted again in a later step, as long as
-- the library still holds it valid then (it accepts the codes of the steps beside its own): the row
-- keeps the step of the clock, not that of the code. No query or update fails.
pub code_accepted_again :
    (w later : World) (totp : Totp) (user : ℕ) (code : String) (m : MfaMethod) (s : State)
    → w.breaks find_mfa ≡ false
    → w.breaks update_mfa ≡ false
    → later.breaks find_mfa ≡ false
    → later.breaks update_mfa ≡ false
    → first (is_method_of user) s.mfa_methods ≡ some m
    → totp.validate w.wall code m.secret ≡ true
    → totp.validate later.wall code m.secret ≡ true
    → m.last_used_totp_step < current_step w
    → current_step w < current_step later
    → ((validate_code w totp user code s).0 ≡ ok true)
      × ((validate_code later totp user code (validate_code w totp user code s).1).0 ≡ ok true)
code_accepted_again w later totp user code m s works updates works' updates' row valid valid' unused
      step =
    let run = validate_code-eq-method totp user m w code s works row in
    let first_time = fresh_step totp user m w code m s updates valid unused in
    let s' : State = (validate_code w totp user code s).1 in
    let written : s' ≡ with_method (stepped w m) s =
      ap (λ (p : Result Bool × State). p.1) (run ∙ first_time) in
    let row' : first (is_method_of user) s'.mfa_methods ≡ some (stepped w m) =
      ap (λ (t : State). first (is_method_of user) t.mfa_methods) written
      ∙ saved_method totp user m (stepped w m) s row refl refl refl in
    (
      ap (λ (p : Result Bool × State). p.0) (run ∙ first_time),
      ap (λ (p : Result Bool × State). p.0)
          (validate_code-eq-method totp user (stepped w m) later code s' works' row'
            ∙ fresh_step totp user m later code (stepped w m) s' updates' valid' step),
    )

-- Taking a code out of a list without repetitions leaves a list without it.
remove_code_lem :
    (hash : String) (codes left : List String)
    → IsDistinct codes
    → remove_code hash codes ≡ some left
    → contains left hash ≡ false
unfolding remove_code contains
remove_code_lem hash [] left d h = ground arith
remove_code_lem hash (bc ∷ codes) left (new, d) h = elim (Bool-cases (str_eq bc hash)) [
  | inl hit ↦
      let same : bc ≡ hash = (eq_iff bc hash).0 hit in ground (arith, ap (contains codes) same)
  | inr miss ↦ elim (Option-cases (remove_code hash codes)) [
    | inl absent ↦ absurd (ground arith)
    | inr (rest, removed) ↦ let ih = remove_code_lem hash codes rest d removed in ground arith
  ]
]

remove_absent :
    (hash : String) (codes : List String)
    → contains codes hash ≡ false
    → remove_code hash codes ≡ none
unfolding remove_code contains
remove_absent hash [] h = refl
remove_absent hash (bc ∷ codes) h = ground (arith, remove_absent hash codes)

module _ (totp : Totp) (w : World) (code : String) (m : MfaMethod) (s : State) where
  backup_state :
      (s' : State) (left : List String)
      → totp.validate w.wall code m.secret ≡ false
      → remove_code (w.hash_token code) m.backup_codes ≡ some left
      → validate_method w totp code (some m) s ≡ (ok true, s')
      → s' ≡ with_method (record m { backup_codes = left }) s
  unfolding validate_method accept_backup update_method ◌>>=◌
  backup_state s' left other removed h = ground arith

  no_backup :
      (codes : List String)
      → totp.validate w.wall code m.secret ≡ false
      → remove_code (w.hash_token code) codes ≡ none
      → validate_method w totp code (some (record m { backup_codes = codes })) s ≡ (ok false, s)
  unfolding validate_method accept_backup ◌>>=◌
  no_backup codes other absent = ground arith

-- After a backup code was accepted it is refused from then on, when the stored codes are all
-- different, the text is no TOTP code at either time, the digest is the same function, and no lookup
-- fails; the refusal writes nothing.
pub backup_code_spent :
    (w later : World) (totp : Totp) (user : ℕ) (code : String) (m : MfaMethod) (s s' : State)
    → w.breaks find_mfa ≡ false
    → later.breaks find_mfa ≡ false
    → later.hash_token code ≡ w.hash_token code
    → first (is_method_of user) s.mfa_methods ≡ some m
    → IsDistinct m.backup_codes
    → totp.validate w.wall code m.secret ≡ false
    → totp.validate later.wall code m.secret ≡ false
    → validate_code w totp user code s ≡ (ok true, s')
    → validate_code later totp user code s' ≡ (ok false, s')
backup_code_spent w later totp user code m s s' works works' digest row distinct other other' h =
    let accepted = sym (validate_code-eq-method totp user m w code s works row) ∙ h in
    elim (Option-cases (remove_code (w.hash_token code) m.backup_codes)) [
      | inl absent ↦ absurd (ground (arith, no_backup totp w code m s m.backup_codes other absent))
      | inr (left, removed) ↦
          let kept : MfaMethod = record m { backup_codes = left } in
          let written = backup_state totp w code m s s' left other removed accepted in
          let row' : first (is_method_of user) s'.mfa_methods ≡ some kept =
            ap (λ (t : State). first (is_method_of user) t.mfa_methods) written
            ∙ saved_method totp user m kept s row refl refl refl in
          let gone = remove_code_lem (w.hash_token code) m.backup_codes left distinct removed in
          validate_code-eq-method totp user kept later code s' works' row'
          ∙ no_backup totp later code m s' left other' (
              ap (λ (h : String). remove_code h left) digest
              ∙ remove_absent (w.hash_token code) left gone)
    ]
