-- ===== src/Oauth/Start/Laws.antt =====
-- What InitAuthorize promises of its silent branches and of the session cookie.
use mathlib.Core.Path.{fun_ext}
use orion_auth_backend.Prelude.{
  ℕ, ◌+◌, ◌*◌, ◌≤◌, String, ◌≡◌, refl, sym, ap, ◌∙◌, true, false, ◌&&◌, Option, none, some, inl,
  inr, arith, str_eq, first, Bool-cases, ◌⊎◌,
}
use orion_auth_backend.Exec.{Exec, Result, ok, err, lift, optional, ◌>>=◌, ◌>>◌, bind_ok, lenient}
use orion_auth_backend.Model.{OauthClient, Session, State}
use orion_auth_backend.World.{second}
use orion_auth_backend.Session.{find_by_cookie_token, live}
use orion_auth_backend.Oauth.Service.{Service}
use orion_auth_backend.Oauth.Params.{InitAuthorizeParams, guard_all}
use orion_auth_backend.Oauth.Start.{
  Granted, InitAuthorizeResponse, max_age_of, too_old, init_guards, grant_scopes,
}
use orion_auth_backend.Oauth.Start.Silent.{resume_session, try_silent_sso}
use orion_auth_backend.Oauth.Start.Init.{ask_for_login, start, init_authorize}

-- The 64-bit product never makes a session look younger than it is.
pub too_old-bound :
    (now since m : ℕ) → too_old now since (some m) ≡ false → now ≤ since + m * second
too_old-bound now since m h = ground arith

module _ (svc : Service) where
  start_forced :
      (client : OauthClient) (p : InitAuthorizeParams) (g : Granted)
      → p.prompt ≡ "login"
      → start svc client p g ≡ ask_for_login svc client p g
  unfolding start ◌>>=◌
  start_forced client p g forced =
      let shown : str_eq p.prompt "none" ≡ false = rw forced refl in
      let asked : str_eq p.prompt "login" ≡ true = rw forced refl in fun_ext λ s. ground arith

  -- A request that forces a login is answered as if there were no session cookie.
  pub forced_login_ignores_cookie :
      (client : OauthClient) (p : InitAuthorizeParams) (cookie : String)
      → p.prompt ≡ "login"
      → init_authorize svc client (record p { session_cookie = cookie })
        ≡ init_authorize svc client (record p { session_cookie = "" })
  unfolding init_authorize ask_for_login grant_scopes
  forced_login_ignores_cookie client p cookie forced =
      let with_cookie : InitAuthorizeParams = record p { session_cookie = cookie } in
      let without : InitAuthorizeParams = record p { session_cookie = "" } in
      let same = fun_ext (λ g.
        start_forced client with_cookie g forced ∙ sym (start_forced client without g forced)) in
      ap
        (λ (rest : Granted → Exec State InitAuthorizeResponse).
          lift (guard_all (init_guards svc client p))
          >> (lift (grant_scopes svc client p) >>= rest))
        same

  -- What a silent answer to the cookie rests on.
  pub record IsLiveLogin (p : InitAuthorizeParams) (s : State) : Type 0 where
    pub session : Session
    pub stored :
        first
          (λ r. str_eq r.cookie_token_hash (svc.hash_token p.session_cookie) && live svc.world r)
          s.sessions
        ≡ some session
    pub young : (m : ℕ) → max_age_of p ≡ some m → svc.now ≤ session.authenticated_at + m * second

  cookie_ok :
      (raw : String) (s s' : State) (o : Option Session)
      → find_by_cookie_token svc.world raw s ≡ (ok o, s')
      → (o ≡ none)
        ⊎ (first
              (λ r. str_eq r.cookie_token_hash (svc.hash_token raw) && live svc.world r)
              s.sessions
            ≡ o)
  unfolding find_by_cookie_token ◌>>=◌
  cookie_ok raw s s' o h = elim (Bool-cases (str_eq raw "")) [
    | inl blank ↦ inl (ground arith)
    | inr given ↦ inr (ground arith)
  ]

  resume_young :
      (client : OauthClient) (p : InitAuthorizeParams) (g : Granted) (sess : Session) (s s' : State)
      (resp : InitAuthorizeResponse)
      → resume_session svc client p g (some sess) s ≡ (ok (some resp), s')
      → too_old svc.now sess.authenticated_at (max_age_of p) ≡ false
  unfolding resume_session ◌>>=◌
  resume_young client p g sess s s' resp h =
      elim (Bool-cases (too_old svc.now sess.authenticated_at (max_age_of p))) [
        | inl old ↦ absurd (ground arith)
        | inr young ↦ young
      ]

  optional_ok :
      {A : Type 0} (m : Exec State (Option A)) (s s' : State) (a : A)
      → optional m s ≡ (ok (some a), s')
      → m s ≡ (ok (some a), s')
  unfolding ◌>>=◌
  optional_ok {A} m s s' a h =
      ends_some (m s).0 (m s).1 (ap (λ (p : Result (Option A) × State). p.0) h)
        (ap (λ (p : Result (Option A) × State). p.1) h)
    where
      ends_some :
          (r : Result (Option A)) (t : State)
          → ok (lenient r) ≡ ok (some a)
          → t ≡ s'
          → ◌≡◌ {A = Result (Option A) × State} (r, t) (ok (some a), s')
      ends_some (ok (some b)) t e f = cc
      ends_some (ok none) t e f = absurd (ground arith)
      ends_some (err x) t e f = absurd (ground arith)

  session_found :
      (client : OauthClient) (p : InitAuthorizeParams) (g : Granted) (o : Option Session)
      (s s1 s' : State) (resp : InitAuthorizeResponse)
      → (o ≡ none)
        ⊎ (first
              (λ r.
                str_eq r.cookie_token_hash (svc.hash_token p.session_cookie) && live svc.world r)
              s.sessions
            ≡ o)
      → resume_session svc client p g o s1 ≡ (ok (some resp), s')
      → IsLiveLogin p s
  unfolding resume_session ◌>>=◌
  session_found client p g none s s1 s' resp found h = absurd (ground arith)
  session_found client p g (some sess) s s1 s' resp (inl e) h = absurd (ground arith)
  session_found client p g (some sess) s s1 s' resp (inr stored) h = record {
    session = sess;
    stored = stored;
    young = λ m e.
        too_old-bound svc.now sess.authenticated_at m
          (rw e at (resume_young client p g sess s1 s' resp h));
  }

  -- Silent SSO answers only for a stored session of the cookie that is neither revoked nor expired and,
  -- when max_age is given, began no longer ago than that, even where the 64-bit duration wraps around.
  pub try_silent_sso-IsLiveLogin :
      (client : OauthClient) (p : InitAuthorizeParams) (g : Granted) (s s' : State)
      (resp : InitAuthorizeResponse)
      → try_silent_sso svc client p g s ≡ (ok (some resp), s')
      → IsLiveLogin p s
  unfolding try_silent_sso
  try_silent_sso-IsLiveLogin client p g s s' resp h =
      let (o, s1, e1, k1) = bind_ok _ _ s (optional_ok _ s s' resp h) in
      session_found client p g o s s1 s' resp (cookie_ok p.session_cookie s s1 o e1) k1
