-- ===== src/Session/Laws.antt =====
-- What the session service promises: only the owner revokes, and revoked sessions stay dead.
use orion_auth_backend.Prelude.{
  ℕ, ◌≡◌, ◌≢◌, true, some, arith, ◌==◌, first, first-update_where, first_passes, refl,
}
use orion_auth_backend.Exec.{ok}
use orion_auth_backend.Model.{Session, State}
use orion_auth_backend.World.{World}
use orion_auth_backend.Session.{revoke, is_active, revoked_now}

-- After a revocation that succeeded the session is not reported active.
pub is_active-revoke :
    (w : World) (id user : ℕ) (s : State)
    → (revoke w id user s).0 ≡ ok tt
    → (is_active w id (revoke w id user s).1).0 ≢ ok true
unfolding revoke is_active
is_active-revoke w id user s h k = ground (
  arith,
  first-update_where (λ (r : Session). r.id == id) (λ r. r.id == id) (revoked_now w) s.sessions
      (λ x hit. refl),
  first_passes (λ (r : Session). r.id == id) s.sessions,
)

-- Revoking never succeeds for a user that does not own the session, and changes nothing then.
pub revoke_forbidden :
    (w : World) (id user : ℕ) (s : State) (row : Session)
    → first (λ r. r.id == id) s.sessions ≡ some row
    → row.user_id ≢ user
    → ((revoke w id user s).0 ≢ ok tt) × ((revoke w id user s).1 ≡ s)
unfolding revoke
revoke_forbidden w id user s row h k = ground arith
