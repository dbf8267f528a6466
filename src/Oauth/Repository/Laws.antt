-- ===== src/Oauth/Repository/Laws.antt =====
-- Transactions: a body that fails leaves the tables as they were.
use orion_auth_backend.Prelude.{◌≡◌, arith}
use orion_auth_backend.Errors.{Error}
use orion_auth_backend.Exec.{Exec, Result, ok, err}
use orion_auth_backend.Model.{State}
use orion_auth_backend.World.{World}
use orion_auth_backend.Oauth.Repository.{succeeded, transaction}

module _ (w : World) {A : Type 0} where
  abbrev closed : State → Result A × State → Result A × State
  closed s p = (p.0, record p.1 { db = w.after_transaction (succeeded p.0) s.db p.1.db })

  closed_ok :
      (s : State) (p : Result A × State) (a : A) (s' : State)
      → closed s p ≡ (ok a, s')
      → p ≡ (ok a, s')
  closed_ok s (ok b, t) a s' h = ground (arith, w.commits s.db t.db)
  closed_ok s (err e, t) a s' h = absurd (ground arith)

  closed_err :
      (s : State) (p : Result A × State) (e : Error) (s' : State)
      → closed s p ≡ (err e, s')
      → s'.db ≡ s.db
  closed_err s (ok b, t) e s' h = absurd (ground arith)
  closed_err s (err d, t) e s' h = ground (arith, w.rolls_back s.db t.db)

  -- A transaction that succeeds ends as its body did.
  pub transaction_ok :
      (body : Exec State A) (s s' : State) (a : A)
      → transaction w body s ≡ (ok a, s')
      → body s ≡ (ok a, s')
  unfolding transaction
  transaction_ok body s s' a h = closed_ok s (body s) a s' h

  -- A transaction that fails changes no table.
  pub transaction_err :
      (body : Exec State A) (s s' : State) (e : Error)
      → transaction w body s ≡ (err e, s')
      → s'.db ≡ s.db
  unfolding transaction
  transaction_err body s s' e h = closed_err s (body s) e s' h
