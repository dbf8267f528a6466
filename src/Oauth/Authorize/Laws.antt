-- ===== src/Oauth/Authorize/Laws.antt =====
-- What an authorization code that is handed out stands for, and that its request is spent.
use mathlib.Core.Path.{subst}
use orion_auth_backend.Prelude.{
  ℕ, String, ◌≡◌, refl, ap, ◌∙◌, Bool, true, false, not, ◌&&◌, List, ◌∷◌, Option, none, some, arith,
  select, ◌==◌, ltb, if◌then◌else◌, any,
}
use orion_auth_backend.Errors.{Error, server_error, panic}
use orion_auth_backend.Exec.{
  Exec, Result, ok, pure, ◌>>=◌, bind_ok, or_raise, ignore, require, branch,
}
use orion_auth_backend.Model.{AuthorizationRequest, AuthorizationCode, Session, State}
use orion_auth_backend.World.{World, generate, delete_auth_request}
use orion_auth_backend.Session.{create}
use orion_auth_backend.Oauth.Service.{Service}
use orion_auth_backend.Oauth.Repository.{client_by_id, insert_access_token}
use orion_auth_backend.Oauth.Repository.Flow.{remove_auth_request, insert_auth_code}
use orion_auth_backend.Oauth.Hybrid.{
  HybridTokens, hybrid_access_token, hybrid_id_token, hybrid_tokens,
}
use orion_auth_backend.Oauth.Authorize.{
  AuthorizeConsentResponse, compute_session_state, code_row, respond, answer, hand_out,
  complete_authorize,
}

-- The live row of a request.
abbrev pub is_request : World → ℕ → AuthorizationRequest → Bool
is_request w id r = r.id == id && ltb w.wall r.expires_at

require_ok :
    (o : Option ℕ) (s s' : State) (user : ℕ)
    → require panic o s ≡ (ok user, s')
    → (o ≡ some user) × (s' ≡ s)
unfolding ◌>>=◌
require_ok none s s' user h = absurd (ground arith)
require_ok (some u) s s' user h = (ground arith, ground arith)

-- The tables of the flow that a step may leave alone.
abbrev pub KeepsFlow : State → State → Type 0
KeepsFlow s s' =
    (s'.auth_codes ≡ s.auth_codes)
    × (s'.auth_requests ≡ s.auth_requests)
    × (s'.sessions ≡ s.sessions)

-- A session that was opened for a user: its identifier was in no row, and its row was added to the
-- sessions, without the cookie, which only the answer carries.
pub record Opened (user : ℕ) (before after : State) (sess : Session) : Type 0 where
  pub owner : sess.user_id ≡ user
  pub not_revoked : sess.revoked ≡ false
  pub fresh : any (λ r. r.id == sess.id) before.sessions ≡ false
  pub stored : after.sessions ≡ record sess { cookie_token = "" } ∷ before.sessions

module _ (svc : Service) where
  create_lem :
      (user : ℕ) (ip agent : String) (extended : Bool) (e : Error) (s s' : State) (sess : Session)
      → or_raise e
          (create svc.world svc.session_config
            (record { user_id = user; ip_address = ip; user_agent = agent; extended = extended }))
          s
        ≡ (ok sess, s')
      → (s'.auth_codes ≡ s.auth_codes)
        × (s'.auth_requests ≡ s.auth_requests)
        × Opened user s s' sess
  unfolding create ◌>>=◌
  create_lem user ip agent extended e s s' sess h = (
    ground arith,
    ground arith,
    record {
      owner = ground arith;
      not_revoked = ground arith;
      fresh = ground arith;
      stored = ground arith;
    },
  )

  abbrev pub removed_requests : ℕ → List AuthorizationRequest → List AuthorizationRequest
  removed_requests id rows =
      if svc.breaks delete_auth_request then rows else select (λ r. not (r.id == id)) rows

  remove_ok :
      (id : ℕ) (s s' : State) (u : Unit {0})
      → ignore (remove_auth_request svc.world id) s ≡ (ok u, s')
      → (s'.auth_codes ≡ s.auth_codes)
        × (s'.auth_requests ≡ removed_requests id s.auth_requests)
        × (s'.sessions ≡ s.sessions)
  unfolding remove_auth_request ◌>>=◌
  remove_ok id s s' u h = (ground arith, ground arith, ground arith)

  generate_keeps :
      (e : Error) (s s' : State) (c : String) → generate svc.world e s ≡ (ok c, s') → KeepsFlow s s'
  unfolding generate
  generate_keeps e s s' c h = (ground arith, ground arith, ground arith)

  insert_code_ok :
      (e : Error) (row : AuthorizationCode) (s s' : State)
      → or_raise e (insert_auth_code svc.world row) s ≡ (ok tt, s')
      → (s'.auth_codes ≡ row ∷ s.auth_codes)
        × (s'.auth_requests ≡ s.auth_requests)
        × (s'.sessions ≡ s.sessions)
  unfolding insert_auth_code ◌>>=◌
  insert_code_ok e row s s' h = (ground arith, ground arith, ground arith)

  session_state_keeps :
      (client uri session : String) (s s' : State) (t : String)
      → compute_session_state svc client uri session s ≡ (ok t, s')
      → KeepsFlow s s'
  unfolding compute_session_state
  session_state_keeps client uri session s s' t h = (ground arith, ground arith, ground arith)

  access_keeps :
      (req : AuthorizationRequest) (user session : ℕ) (s : State)
      → KeepsFlow s (hybrid_access_token svc req user session s).1
  unfolding hybrid_access_token client_by_id generate insert_access_token ◌>>=◌
  access_keeps req user session s = (ground arith, ground arith, ground arith)

  id_keeps :
      (req : AuthorizationRequest) (user : ℕ) (code : String) (t : HybridTokens) (s : State)
      → KeepsFlow s (hybrid_id_token svc svc.id_token_generator req user code t s).1
  unfolding hybrid_id_token client_by_id ◌>>=◌
  id_keeps req user code t s = (ground arith, ground arith, ground arith)

  pure_keeps : (t : HybridTokens) (s : State) → KeepsFlow s (pure {S = State} t s).1
  unfolding ◌>>=◌
  pure_keeps t s = (refl, refl, refl)

  branch_keeps :
      (wanted : Bool) (m n : Exec State HybridTokens) (s s' : State) (t : HybridTokens)
      → KeepsFlow s (m s).1
      → KeepsFlow s (n s).1
      → branch wanted m n s ≡ (ok t, s')
      → KeepsFlow s s'
  unfolding ◌>>=◌
  branch_keeps true m n s s' t hm hn h =
      subst (KeepsFlow s) (ap (λ (p : Result HybridTokens × State). p.1) h) hm
  branch_keeps false m n s s' t hm hn h =
      subst (KeepsFlow s) (ap (λ (p : Result HybridTokens × State). p.1) h) hn

  keeps_trans : (s t u : State) → KeepsFlow s t → KeepsFlow t u → KeepsFlow s u
  keeps_trans s t u h k = (k.0 ∙ h.0, k.1 ∙ h.1, k.2 ∙ h.2)

  hybrid_keeps :
      (req : AuthorizationRequest) (user session : ℕ) (code : String) (s s' : State)
      (t : HybridTokens)
      → hybrid_tokens svc req user session code s ≡ (ok t, s')
      → KeepsFlow s s'
  unfolding hybrid_tokens
  hybrid_keeps req user session code s s' t h =
      let (tokens, s1, e1, k1) = bind_ok _ _ s h in
      keeps_trans s s1 s'
        (branch_keeps _ _ _ s s1 tokens (access_keeps req user session s) (pure_keeps _ s) e1)
        (branch_keeps _ _ _ s1 s' t (id_keeps req user code tokens s1) (pure_keeps tokens s1) k1)

  maybe_hybrid_keeps :
      (wanted : Bool) (none_given : HybridTokens) (req : AuthorizationRequest) (user session : ℕ)
      (code : String) (s s' : State) (t : HybridTokens)
      → branch wanted (hybrid_tokens svc req user session code) (pure none_given) s ≡ (ok t, s')
      → KeepsFlow s s'
  unfolding ◌>>=◌
  maybe_hybrid_keeps true none_given req user session code s s' t h =
      hybrid_keeps req user session code s s' t h
  maybe_hybrid_keeps false none_given req user session code s s' t h =
      (ground arith, ground arith, ground arith)

-- A code that was handed out: the user and the new session that it stands for, and its row.
pub record Completed (svc : Service) (req : AuthorizationRequest) (before after : State)
    (resp : AuthorizeConsentResponse) : Type 0 where
  pub user : ℕ
  pub by_user : req.user_id ≡ some user
  pub sess : Session
  pub opened : Opened user before after sess
  pub row :
      after.auth_codes
      ≡ code_row svc req user sess.id (svc.hash_token resp.code) ∷ before.auth_codes
  pub requests : after.auth_requests ≡ removed_requests svc req.id before.auth_requests

module _ (svc : Service) (req : AuthorizationRequest) where
  respond_ok :
      (sess : Session) (code text : String) (tokens : HybridTokens) (s s' : State)
      (resp : AuthorizeConsentResponse)
      → pure (respond svc req sess code text tokens) s ≡ (ok resp, s')
      → (code ≡ resp.code) × (s ≡ s')
  unfolding ◌>>=◌
  respond_ok sess code text tokens s s' resp h =
      let e : respond svc req sess code text tokens ≡ resp = ground arith in
      (ap (λ (r : AuthorizeConsentResponse). r.code) e, ground arith)

  answer_keeps :
      (user : ℕ) (sess : Session) (code : String) (s s' : State) (resp : AuthorizeConsentResponse)
      → answer svc req user sess code s ≡ (ok resp, s')
      → KeepsFlow s s' × (code ≡ resp.code)
  unfolding answer
  answer_keeps user sess code s s' resp h =
      let (text, s1, e1, k1) = bind_ok _ _ s h in
      let (tokens, s2, e2, k2) = bind_ok _ _ s1 k1 in
      let kept1 =
        session_state_keeps svc (svc.uuid_text req.client_id) req.redirect_uri
          (svc.uuid_text sess.id) s s1 text e1 in
      let kept2 = maybe_hybrid_keeps svc _ _ req user sess.id code s1 s2 tokens e2 in
      let (same, last) = respond_ok sess code text tokens s2 s' resp k2 in
      (subst (KeepsFlow s) last (keeps_trans svc s s1 s2 kept1 kept2), same)

  hand_out_lem :
      (user : ℕ) (sess : Session) (s s' : State) (resp : AuthorizeConsentResponse)
      → hand_out svc req user sess s ≡ (ok resp, s')
      → (s'.auth_codes ≡ code_row svc req user sess.id (svc.hash_token resp.code) ∷ s.auth_codes)
        × (s'.auth_requests ≡ s.auth_requests)
        × (s'.sessions ≡ s.sessions)
  unfolding hand_out
  hand_out_lem user sess s s' resp h =
      let (raw, s1, e1, k1) = bind_ok _ _ s h in
      let (v, s2, e2, k2) = bind_ok _ _ s1 k1 in
      let kept1 =
        generate_keeps svc (server_error "failed to generate authorization code") s s1 raw e1 in
      let kept2 =
        insert_code_ok svc (server_error "failed to create authorization code")
          (code_row svc req user sess.id (svc.hash_token raw)) s1 s2 e2 in
      let (kept3, same) = answer_keeps user sess raw s2 s' resp k2 in
      (
        kept3.0
            ∙ kept2.0
            ∙ ap
                (λ (cs : List AuthorizationCode).
                  code_row svc req user sess.id (svc.hash_token raw) ∷ cs)
                kept1.0
            ∙ ap (λ (t : String). code_row svc req user sess.id (svc.hash_token t) ∷ s.auth_codes)
                same,
        kept3.1 ∙ kept2.1 ∙ kept1.1,
        kept3.2 ∙ kept2.2 ∙ kept1.2,
      )

  -- What is completed adds the code's row for the request and takes the request away.
  pub complete_authorize-Completed :
      (ip agent : String) (s s' : State) (resp : AuthorizeConsentResponse)
      → complete_authorize svc req ip agent s ≡ (ok resp, s')
      → Completed svc req s s' resp
  unfolding complete_authorize
  complete_authorize-Completed ip agent s s' resp h =
      let (user, s1, e1, k1) = bind_ok _ _ s h in
      let (sess, s2, e2, k2) = bind_ok _ _ s1 k1 in
      let (u, s3, e3, k3) = bind_ok _ _ s2 k2 in
      let (by_user, same1) = require_ok req.user_id s s1 user e1 in
      let (codes2, requests2, session) =
        create_lem svc user ip agent req.remember_me (server_error "failed to create session") s1 s2
          sess e2 in
      let kept3 = remove_ok svc req.id s2 s3 u e3 in
      let (row, rows, sessions) = hand_out_lem user sess s3 s' resp k3 in
      record {
        user = user;
        by_user = by_user;
        sess = sess;
        opened =
            subst (λ (t : State). Opened user t s' sess) same1
              (record {
                owner = session.owner;
                not_revoked = session.not_revoked;
                fresh = session.fresh;
                stored = sessions ∙ kept3.2 ∙ session.stored;
              });
        row =
            row
            ∙ ap
                (λ (cs : List AuthorizationCode).
                  code_row svc req user sess.id (svc.hash_token resp.code) ∷ cs)
                (kept3.0 ∙ codes2 ∙ ap (λ (t : State). t.auth_codes) same1);
        requests =
            rows
            ∙ kept3.1
            ∙ ap (removed_requests svc req.id)
                (requests2 ∙ ap (λ (t : State). t.auth_requests) same1);
      }
