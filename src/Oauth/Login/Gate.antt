-- ===== src/Oauth/Login/Gate.antt =====
-- The state machine of an authorization request: every operation of the authorization endpoint keeps
-- the gate between its stages.
use orion_auth_backend.Prelude.{
  ℕ, String, ◌≡◌, sym, Bool, true, false, not, Option, none, some, inl, inr, arith, All, select-All,
  is_some, ◌==◌, Bool-cases, subst,
}
use orion_auth_backend.Errors.{Error}
use orion_auth_backend.Exec.{
  Exec, Result, ok, pure, lift, or_raise, require, fail_if, branch, ignore, ◌>>=◌, bind_keeps,
}
use orion_auth_backend.Model.{AuthorizationRequest, AuthorizationCode, Session, State}
use orion_auth_backend.World.{generate, delete_auth_request}
use orion_auth_backend.Session.{create, CreateInput}
use orion_auth_backend.Oauth.Service.{Service}
use orion_auth_backend.Oauth.Repository.{client_by_id, insert_access_token}
use orion_auth_backend.Oauth.Repository.Flow.{remove_auth_request, insert_auth_code}
use orion_auth_backend.Oauth.Hybrid.{
  HybridTokens, no_tokens, hybrid_access_token, hybrid_id_token, hybrid_tokens,
}
use orion_auth_backend.Oauth.Authorize.{compute_session_state, answer, hand_out, complete_authorize}

-- A request is authenticated only for a user and at a time, and has a consent only once it is
-- authenticated.
pub record IsGated (r : AuthorizationRequest) : Type 0 where
  pub known : r.authenticated ≡ true → is_some r.user_id ≡ true
  pub timed : r.authenticated ≡ true → is_some r.auth_time ≡ true
  pub consented : r.consent_given ≡ true → r.authenticated ≡ true

-- Every stored request is gated.
pub record Gated (s : State) : Type 0 where
  pub rows : All IsGated s.auth_requests

pub same-Gated : (s t : State) → t.auth_requests ≡ s.auth_requests → Gated s → Gated t
same-Gated s t e h = record { rows = subst (All IsGated) (sym e) h.rows }

-- An action that keeps every stored request gated, whether it returns or fails.
pub record IsGateKeeping {A : Type 0} (m : Exec State A) : Type 0 where
  pub at : (s : State) → Gated s → Gated (m s).1

module _ {A : Type 0} where
  -- An action that leaves the requests alone.
  pub quiet-IsGateKeeping :
      (m : Exec State A) → ((s : State) → (m s).1.auth_requests ≡ s.auth_requests) → IsGateKeeping m
  quiet-IsGateKeeping m e = record { at = λ s h. same-Gated s (m s).1 (e s) h }

  pub pure-IsGateKeeping : (a : A) → IsGateKeeping (pure a)
  unfolding ◌>>=◌
  pure-IsGateKeeping a = record { at = λ s h. h }

  pub branch-IsGateKeeping :
      (test : Bool) {m n : Exec State A}
      → IsGateKeeping m
      → IsGateKeeping n
      → IsGateKeeping (branch test m n)
  unfolding ◌>>=◌
  branch-IsGateKeeping true k l = record { at = k.at }
  branch-IsGateKeeping false k l = record { at = l.at }

  pub lift-IsGateKeeping : (r : Result A) → IsGateKeeping (lift r)
  unfolding ◌>>=◌
  lift-IsGateKeeping r = record { at = λ s h. h }

  pub require-IsGateKeeping : (e : Error) (o : Option A) → IsGateKeeping (require e o)
  unfolding ◌>>=◌
  require-IsGateKeeping e none = record { at = λ s h. h }
  require-IsGateKeeping e (some a) = record { at = λ s h. h }

module _ {A B : Type 0} where
  pub bind-IsGateKeeping :
      {m : Exec State A} {f : A → Exec State B}
      → IsGateKeeping m
      → ((a : A) → IsGateKeeping (f a))
      → IsGateKeeping (m >>= f)
  bind-IsGateKeeping {m} {f} k l = record {
    at = λ s h. bind_keeps Gated m f s (k.at s h) λ a _. (l a).at (m s).1 (k.at s h);
  }

  -- The rest may rely on what a gated state says of the first value.
  pub bind_value-IsGateKeeping :
      {m : Exec State A} {f : A → Exec State B} (V : A → Type 0)
      → IsGateKeeping m
      → ((s : State) (a : A) → Gated s → m s ≡ (ok a, (m s).1) → V a)
      → ((a : A) → V a → IsGateKeeping (f a))
      → IsGateKeeping (m >>= f)
  bind_value-IsGateKeeping {m} {f} V k v l = record {
    at = λ s h. bind_keeps Gated m f s (k.at s h) λ a e. (l a (v s a h e)).at (m s).1 (k.at s h);
  }

pub fail_if-IsGateKeeping : (test : Bool) (e : Error) → IsGateKeeping (fail_if test e)
unfolding ◌>>=◌
fail_if-IsGateKeeping test e = record { at = λ s h. h }

module _ (svc : Service) where
  open_session_requests :
      (input : CreateInput) (e : Error) (s : State)
      → (or_raise e (create svc.world svc.session_config input) s).1.auth_requests ≡ s.auth_requests
  unfolding create ◌>>=◌
  open_session_requests input e s = ground arith

  remove-IsGateKeeping : (id : ℕ) → IsGateKeeping (ignore (remove_auth_request svc.world id))
  unfolding remove_auth_request ◌>>=◌
  remove-IsGateKeeping id = record {
    at = λ s h. record {
      rows = elim (Bool-cases (svc.breaks delete_auth_request)) [
        | inl fails ↦ rw fails h.rows
        | inr done ↦ rw done (select-All IsGated (λ r. not (r.id == id)) s.auth_requests h.rows)
      ];
    };
  }

  generate_requests :
      (e : Error) (s : State) → (generate svc.world e s).1.auth_requests ≡ s.auth_requests
  unfolding generate
  generate_requests e s = ground arith

  insert_code_requests :
      (e : Error) (row : AuthorizationCode) (s : State)
      → (or_raise e (insert_auth_code svc.world row) s).1.auth_requests ≡ s.auth_requests
  unfolding insert_auth_code ◌>>=◌
  insert_code_requests e row s = ground arith

  session_state_requests :
      (client uri session : String) (s : State)
      → (compute_session_state svc client uri session s).1.auth_requests ≡ s.auth_requests
  unfolding compute_session_state
  session_state_requests client uri session s = ground arith

  access_requests :
      (wanted : Bool) (req : AuthorizationRequest) (user session : ℕ) (s : State)
      → (branch wanted
          (hybrid_access_token svc req user session)
          (pure no_tokens)
          s).1.auth_requests
        ≡ s.auth_requests
  unfolding hybrid_access_token client_by_id generate insert_access_token ◌>>=◌
  access_requests wanted req user session s = ground arith

  id_requests :
      (wanted : Bool) (req : AuthorizationRequest) (user : ℕ) (code : String) (t : HybridTokens)
      (s : State)
      → (branch wanted
          (hybrid_id_token svc svc.id_token_generator req user code t)
          (pure t)
          s).1.auth_requests
        ≡ s.auth_requests
  unfolding hybrid_id_token client_by_id ◌>>=◌
  id_requests wanted req user code t s = ground arith

  hybrid_tokens-IsGateKeeping :
      (req : AuthorizationRequest) (user session : ℕ) (code : String)
      → IsGateKeeping (hybrid_tokens svc req user session code)
  unfolding hybrid_tokens
  hybrid_tokens-IsGateKeeping req user session code =
      bind-IsGateKeeping (quiet-IsGateKeeping _ (access_requests _ req user session))
        λ t. quiet-IsGateKeeping _ (id_requests _ req user code t)

  hand_out-IsGateKeeping :
      (req : AuthorizationRequest) (user : ℕ) (sess : Session)
      → IsGateKeeping (hand_out svc req user sess)
  unfolding hand_out answer
  hand_out-IsGateKeeping req user sess =
      bind-IsGateKeeping (quiet-IsGateKeeping _ (generate_requests _)) λ code.
        bind-IsGateKeeping (quiet-IsGateKeeping _ (insert_code_requests _ _)) λ _.
          bind-IsGateKeeping (quiet-IsGateKeeping _ (session_state_requests _ _ _)) λ state.
            bind-IsGateKeeping
              (branch-IsGateKeeping _ (hybrid_tokens-IsGateKeeping req user sess.id code)
                (pure-IsGateKeeping _))
              λ tokens. pure-IsGateKeeping _

  -- completeAuthorize keeps the gate, whether it hands out a code or fails on the way.
  pub complete_authorize-IsGateKeeping :
      (req : AuthorizationRequest) (ip agent : String)
      → IsGateKeeping (complete_authorize svc req ip agent)
  unfolding complete_authorize
  complete_authorize-IsGateKeeping req ip agent =
      bind-IsGateKeeping (require-IsGateKeeping _ _) λ user.
        bind-IsGateKeeping (quiet-IsGateKeeping _ (open_session_requests _ _)) λ sess.
          bind-IsGateKeeping (remove-IsGateKeeping req.id) λ _. hand_out-IsGateKeeping req user sess
