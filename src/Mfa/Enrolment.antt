-- ===== src/Mfa/Enrolment.antt =====
-- What an enrolment that is confirmed stores, and that disabling asks for a valid code.
use orion_auth_backend.Prelude.{
  ℕ, zero, suc, String, ◌≡◌, sym, ap, ◌∙◌, true, false, ◌&&◌, List, [], ◌∷◌, some, arith, map,
  length, first, save_row, str_eq, ◌==◌,
}
use orion_auth_backend.Errors.{Error, internal_error, not_found}
use orion_auth_backend.Exec.{ok, ◌>>=◌, bind_ok, found, fail_if_ok, or_raise, pure}
use orion_auth_backend.Model.{MfaMethod, State, Database}
use orion_auth_backend.World.{World, generate}
use orion_auth_backend.Mfa.{Totp, generate_codes, find_by_user_and_type, update_method, verify}

module _ (w : World) where
  one_code : (e : Error) (s s' : State) (c : String) → generate w e s ≡ (ok c, s') → s'.db ≡ s.db
  unfolding generate
  one_code e s s' c h = ground arith

  -- Pairs of a raw code and its digest, that many.
  abbrev AreDigested : ℕ → List String × List String → Type 0
  AreDigested n codes = (codes.1 ≡ map w.hash_token codes.0) × (length codes.0 ≡ n)

  no_codes :
      (s s' : State) (codes : List String × List String)
      → generate_codes w zero s ≡ (ok codes, s')
      → AreDigested 0 codes × (s'.db ≡ s.db)
  unfolding generate_codes ◌>>=◌
  no_codes s s' codes h =
      let e : ◌≡◌ {A = List String × List String} ([], []) codes = ground arith in
      (
        (
          ap (λ (c : List String × List String). c.1) (sym e)
              ∙ ap (λ (c : List String × List String). map w.hash_token c.0) e,
          ap (λ (c : List String × List String). length c.0) (sym e),
        ),
        ground arith,
      )

  more_codes :
      (n : ℕ) (c : String) (rest codes : List String × List String) (s s' : State)
      → AreDigested n rest
      → pure (c ∷ rest.0, w.hash_token c ∷ rest.1) s ≡ (ok codes, s')
      → AreDigested (suc n) codes × (s' ≡ s)
  unfolding ◌>>=◌
  more_codes n c rest codes s s' (digests, count) h =
      let e : ◌≡◌ {A = List String × List String} (c ∷ rest.0, w.hash_token c ∷ rest.1) codes =
        ground arith in
      (
        (
          ap (λ (p : List String × List String). p.1) (sym e)
              ∙ ap (λ (xs : List String). w.hash_token c ∷ xs) digests
              ∙ ap (λ (p : List String × List String). map w.hash_token p.0) e,
          ap (λ (p : List String × List String). length p.0) (sym e) ∙ ap suc count,
        ),
        ground arith,
      )

  -- The stored codes are the digests of the returned ones, as many as asked for.
  generate_codes_lem :
      (n : ℕ) (s s' : State) (codes : List String × List String)
      → generate_codes w n s ≡ (ok codes, s')
      → AreDigested n codes × (s'.db ≡ s.db)
  unfolding generate_codes
  generate_codes_lem zero s s' codes h = no_codes s s' codes h
  generate_codes_lem (suc n) s s' codes h =
      let (c, s1, e1, k1) = bind_ok _ _ s h in
      let (rest, s2, e2, k2) = bind_ok _ _ s1 k1 in
      let drawn = one_code (internal_error "failed to generate backup codes") s s1 c e1 in
      let (digested, kept) = generate_codes_lem n s1 s2 rest e2 in
      let (all, last) = more_codes n c rest codes s2 s' digested k2 in
      (all, ap (λ (t : State). t.db) last ∙ kept ∙ drawn)

  find_totp_ok :
      (user : ℕ) (e : Error) (s s' : State) (m : MfaMethod)
      → found e (find_by_user_and_type w user "totp") s ≡ (ok m, s')
      → (first (λ x. x.user_id == user && str_eq x.kind "totp") s.mfa_methods ≡ some m) × (s' ≡ s)
  unfolding find_by_user_and_type ◌>>=◌
  find_totp_ok user e s s' m h = (ground arith, ground arith)

  update_ok :
      (row : MfaMethod) (e : Error) (s s' : State)
      → or_raise e (update_method w row) s ≡ (ok tt, s')
      → s'.db ≡ record s.db { mfa_methods = save_row (λ m. m.id == row.id) row s.mfa_methods }
  unfolding update_method ◌>>=◌
  update_ok row e s s' h = ground arith

-- A confirmed enrolment: the pending row, the valid code, and what was stored for what was returned.
pub record Confirmed (w : World) (totp : Totp) (user : ℕ) (code : String) (before after : State)
    (codes : List String) : Type 0 where
  pub method : MfaMethod
  pub row : first (λ x. x.user_id == user && str_eq x.kind "totp") before.mfa_methods ≡ some method
  pub pending : method.verified ≡ false
  pub valid : totp.validate w.wall code method.secret ≡ true
  pub ten : length codes ≡ 10
  -- the row is saved as verified, with the digests of the codes that the user is given
  pub stored : after.db ≡ record before.db {
    mfa_methods =
        save_row
          (λ m. m.id == method.id)
          (record method { verified = true; backup_codes = map w.hash_token codes })
          before.mfa_methods;
  }

-- When an enrolment is confirmed, the user had a pending TOTP row for whose secret the code is
-- valid; ten backup codes are returned, and the row is saved as verified with their digests, and
-- nothing else is written.
pub verify-Confirmed :
    (w : World) (totp : Totp) (user : ℕ) (code : String) (s s' : State) (codes : List String)
    → verify w totp user code s ≡ (ok codes, s')
    → Confirmed w totp user code s s' codes
unfolding verify
verify-Confirmed w totp user code s s' codes h =
    let (m, s1, e1, k1) = bind_ok _ _ s h in
    let (u, s2, e2, k2) = bind_ok _ _ s1 k1 in
    let (v, s3, e3, k3) = bind_ok _ _ s2 k2 in
    let (pairs, s4, e4, k4) = bind_ok _ _ s3 k3 in
    let (x, s5, e5, k5) = bind_ok _ _ s4 k4 in
    let (row, same1) = find_totp_ok w user (not_found "no TOTP enrollment found") s s1 m e1 in
    let same : s3 ≡ s = fail_if_ok _ _ s2 e3 ∙ fail_if_ok _ _ s1 e2 ∙ same1 in
    let (digested, kept) = generate_codes_lem w 10 s3 s4 pairs e4 in
    let given : pairs.0 ≡ codes = unfold ◌>>=◌ in ground arith in
    let last : s5 ≡ s' = unfold ◌>>=◌ in ground arith in
    let saved =
      update_ok w (record m { verified = true; backup_codes = pairs.1 })
        (internal_error "failed to activate TOTP") s4 s5 e5 in
    let tables : s4.db ≡ s.db = kept ∙ ap (λ (t : State). t.db) same in
    let digests : pairs.1 ≡ map w.hash_token codes = digested.0 ∙ ap (map w.hash_token) given in
    record {
      method = m;
      row = row;
      pending = unfold ◌>>=◌ in ground arith;
      valid = unfold ◌>>=◌ in ground arith;
      ten = ap length (sym given) ∙ digested.1;
      stored =
          ap (λ (t : State). t.db) (sym last)
          ∙ saved
          ∙ ap
              (λ (d : Database). record d {
                mfa_methods =
                    save_row (λ m'. m'.id == m.id)
                      (record m { verified = true; backup_codes = pairs.1 }) d.mfa_methods;
              })
              tables
          ∙ ap
              (λ (hs : List String). record s.db {
                mfa_methods =
                    save_row (λ m'. m'.id == m.id) (record m { verified = true; backup_codes = hs })
                      s.mfa_methods;
              })
              digests;
    }
