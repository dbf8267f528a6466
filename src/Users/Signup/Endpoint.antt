-- ===== src/Users/Signup/Endpoint.antt =====
-- oauth/service.go over user/service.go: AuthorizeLogin with the user service itself.
use orion_auth_backend.Prelude.{String, ◌≡◌}
use orion_auth_backend.Exec.{ok, ends_ok}
use orion_auth_backend.Model.{State, User}
use orion_auth_backend.Oauth.Service.{Service, LoginInput}
use orion_auth_backend.Oauth.Login.{AuthorizeLoginInput, AuthorizeLoginResponse, authorize_login}
use orion_auth_backend.Oauth.Login.Factors.{LeavesLogin, authorize_login-LeavesLogin}
use orion_auth_backend.Users.{authenticate}
use orion_auth_backend.Users.Login.{IsAuthentic, authenticate-IsAuthentic}
use orion_auth_backend.Users.Signup.{Signups}
use orion_auth_backend.Users.Signup.Collaborator.{user_service}

module _ (r : Signups) (svc : Service) where
  abbrev pub with_users : Service
  with_users = record svc { user_service = user_service r }

  -- When the authorization endpoint runs on the user service, a login that returns is one of a user
  -- whose stored row is active, not locked, verified where that is required, and has a password that
  -- the hasher accepts, and the live request is left with that user.
  pub authorize_login-IsAuthentic :
      (input : AuthorizeLoginInput) (ip agent : String) (s s' : State)
      (resp : AuthorizeLoginResponse)
      → authorize_login with_users input ip agent s ≡ (ok resp, s')
      → (user : User) × IsAuthentic r.accounts
          (record { email = input.email; password = input.password })
          s
          user
        × LeavesLogin with_users input.request_id s' user.id resp
  unfolding user_service
  authorize_login-IsAuthentic input ip agent s s' resp h =
      let (user, accepted, left) =
        authorize_login-LeavesLogin with_users input ip agent s s' resp h in
      let login : LoginInput = record { email = input.email; password = input.password } in
      (
        user,
        authenticate-IsAuthentic r.accounts login s (authenticate r.accounts login s).1 user
            (ends_ok (authenticate r.accounts login) s user accepted),
        left,
      )
