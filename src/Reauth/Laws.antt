-- ===== src/Reauth/Laws.antt =====
-- What a reauthentication token proves, how it is spent, and what two requests at once may do.
use orion_auth_backend.Prelude.{
  ℕ, ◌<◌, String, ◌≡◌, ◌≢◌, refl, sym, ap, ◌∙◌, Bool, false, not, ◌&&◌, List, ◌∷◌, Option, some,
  arith, first, first_passes, first-select, first-update_where, update_where, str_eq, eq_iff, ◌==◌,
}
use orion_auth_backend.Errors.{Error, internal_error}
use orion_auth_backend.Exec.{Result, ok, ◌>>=◌, bind_ok, or_raise}
use orion_auth_backend.Model.{ReauthToken, State, reauth_token_is_valid}
use orion_auth_backend.World.{World, find_reauth, mark_reauth_used}
use orion_auth_backend.Reauth.{
  IssueRequest, IssueResponse, Verifiers, used_now, consume, mark_reauth, revoke_for_session,
  verify, new_reauth, insert_reauth, issue, reauth_by_hash,
}

abbrev pub reauth_id_is : String → ReauthToken → Bool
reauth_id_is hash t = str_eq t.id hash

-- What a token that verifies satisfies.
pub record IsAccepted (w : World) (raw : String) (user session : ℕ) (s : State) (t : ReauthToken)
    : Type 0 where
  pub given : raw ≢ ""
  pub row : first (reauth_id_is (w.hash_token raw)) s.reauth_tokens ≡ some t
  pub unused : t.used ≡ false
  pub live : w.wall < t.expires_at
  pub owner : t.user_id ≡ user
  pub bound : t.session_id ≡ session

module _ (w : World) (raw : String) (user session : ℕ) where
  -- A token verifies only if it is not empty and its row is there, unused, not expired, and of this
  -- user and this session; verifying writes nothing.
  pub verify-IsAccepted :
      (s s' : State) (t : ReauthToken)
      → verify w raw user session s ≡ (ok (some t), s')
      → (s' ≡ s) × IsAccepted w raw user session s t
  unfolding verify reauth_by_hash reauth_token_is_valid ◌>>=◌
  verify-IsAccepted s s' t h = (
    ground arith,
    record {
      given = λ e. ground (arith, eq_iff raw "");
      row = ground arith;
      unused = ground arith;
      live = ground arith;
      owner = ground arith;
      bound = ground arith;
    },
  )

  verified_row :
      (s : State) (t : ReauthToken)
      → (verify w raw user session s).0 ≡ ok (some t)
      → IsAccepted w raw user session s t
  verified_row s t h =
      (verify-IsAccepted s (verify w raw user session s).1 t
        (ap (λ (r : Result (Option ReauthToken)). (r, (verify w raw user session s).1)) h)).1

  -- After a token was consumed it verifies no more, for whichever user and session.
  pub consumed_never_verifies :
      (by : String) (s : State) (t : ReauthToken)
      → (consume w (w.hash_token raw) by s).0 ≡ ok tt
      → (verify w raw user session (consume w (w.hash_token raw) by s).1).0 ≢ ok (some t)
  unfolding consume mark_reauth ◌>>=◌
  consumed_never_verifies by s t h k =
      let hash = w.hash_token raw in
      let accepted = verified_row (consume w (w.hash_token raw) by s).1 t k in
      let row = accepted.row in
      let unused = accepted.unused in
      ground (
        arith,
        first-update_where (reauth_id_is hash) (λ t. str_eq t.id hash && not t.used) (used_now w by)
            s.reauth_tokens (λ x hit. refl),
        first_passes (reauth_id_is hash) s.reauth_tokens,
      )

  -- After the tokens of a session were deleted none of them verifies for the session.
  pub revoked_session_never_verifies :
      (s : State) (t : ReauthToken)
      → (revoke_for_session w session s).0 ≡ ok tt
      → (verify w raw user session (revoke_for_session w session s).1).0 ≢ ok (some t)
  unfolding revoke_for_session ◌>>=◌
  revoked_session_never_verifies s t h k =
      let accepted = verified_row (revoke_for_session w session s).1 t k in
      let row = accepted.row in
      let bound = accepted.bound in
      ground (
        arith,
        first-select (reauth_id_is (w.hash_token raw))
            (λ (t : ReauthToken). not (t.session_id == session)) s.reauth_tokens,
      )

  -- Two requests that both verified a token before either consumed it both succeed in consuming it,
  -- when the driver does not fail: the second is told nothing, and the row names the first.
  pub both_consume :
      (first_by second_by : String) (s : State) (t : ReauthToken)
      → w.breaks mark_reauth_used ≡ false
      → (verify w raw user session s).0 ≡ ok (some t)
      → ((consume w (w.hash_token raw) first_by s).0 ≡ ok tt)
        × ((consume w (w.hash_token raw) second_by (consume w (w.hash_token raw) first_by s).1).0
            ≡ ok tt)
        × (first
              (reauth_id_is (w.hash_token raw))
              (consume w
                (w.hash_token raw)
                second_by
                (consume w (w.hash_token raw) first_by s).1).1.reauth_tokens
            ≡ some (used_now w first_by t))
  unfolding consume mark_reauth ◌>>=◌
  both_consume first_by second_by s t works h =
      let hash = w.hash_token raw in
      let accepted = verified_row s t h in
      let row = accepted.row in
      let unused = accepted.unused in
      let q : ReauthToken → Bool = λ t. str_eq t.id hash && not t.used in
      let once =
        first-update_where (reauth_id_is hash) q (used_now w first_by) s.reauth_tokens
          (λ x hit. refl) in
      let twice =
        first-update_where (reauth_id_is hash) q (used_now w second_by)
          (update_where q (used_now w first_by) s.reauth_tokens) (λ x hit. refl) in
      (
        ground arith,
        ground arith,
        ground (arith, once, twice, first_passes (reauth_id_is hash) s.reauth_tokens),
      )

module _ (w : World) (v : Verifiers) where
  insert_reauth_ok :
      (row : ReauthToken) (e : Error) (s s' : State)
      → or_raise e (insert_reauth w row) s ≡ (ok tt, s')
      → s'.reauth_tokens ≡ row ∷ s.reauth_tokens
  unfolding insert_reauth ◌>>=◌
  insert_reauth_ok row e s s' h = ground arith

  fresh_verifies :
      (user session : ℕ) (method raw : String) (rows : List ReauthToken) (s : State)
      → w.breaks find_reauth ≡ false
      → raw ≢ ""
      → 0 < v.token_ttl
      → s.reauth_tokens ≡ new_reauth w v user session method (w.hash_token raw) ∷ rows
      → (verify w raw user session s).0
        ≡ ok (some (new_reauth w v user session method (w.hash_token raw)))
  unfolding verify reauth_by_hash reauth_token_is_valid ◌>>=◌ first
  fresh_verifies user session method raw rows s works given ttl h =
      ground (arith, eq_iff raw "", eq_iff (w.hash_token raw) (w.hash_token raw))

  -- A token that was issued verifies at once, for its user and its session, when the lifetime is
  -- positive, the token is not empty and the lookup does not fail.
  pub issued_verifies :
      (user session : ℕ) (req : IssueRequest) (s s' : State) (resp : IssueResponse)
      → w.breaks find_reauth ≡ false
      → 0 < v.token_ttl
      → resp.token ≢ ""
      → issue w v user session req s ≡ (ok resp, s')
      → (verify w resp.token user session s').0
        ≡ ok (some (new_reauth w v user session req.method (w.hash_token resp.token)))
  unfolding issue
  issued_verifies user session req s s' resp works ttl given h =
      let (u, s1, e1, k1) = bind_ok _ _ s h in
      let (raw, s2, e2, k2) = bind_ok _ _ s1 k1 in
      let (x, s3, e3, k3) = bind_ok _ _ s2 k2 in
      let stored =
        insert_reauth_ok (new_reauth w v user session req.method (w.hash_token raw))
          (internal_error "failed to issue reauth token") s2 s3 e3 in
      let same : raw ≡ resp.token = unfold ◌>>=◌ in ground arith in
      let last : s3 ≡ s' = unfold ◌>>=◌ in ground arith in
      fresh_verifies user session req.method resp.token s2.reauth_tokens s' works given ttl (
        ap (λ (t : State). t.reauth_tokens) (sym last)
        ∙ stored
        ∙ ap
            (λ (r : String).
              new_reauth w v user session req.method (w.hash_token r) ∷ s2.reauth_tokens)
            same)
