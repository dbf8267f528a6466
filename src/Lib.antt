-- ===== src/Lib.antt =====
-- A model of orion-auth-backend, an OAuth 2.0 / OpenID Connect authorization server in Go, and what
-- is proved of it. The model is of the users' login and passwords, the sessions of the identity
-- provider, the second factor and the step-up tokens, the policy engine with its administration, the
-- whole authorization endpoint, and how tokens are issued, exchanged, revoked and introspected.
--
-- How the parts fit together. The authorization endpoint keeps a request for each client that sends
-- a user: it starts with a login screen, from a session cookie or from an ID token hint, goes on over
-- a login or a registration and a second factor, and ends in a consent that is answered with a code
-- for a new session. A request for a token reaches one of four grants (authorization code, refresh
-- token, client credentials, device code). Each checks its credential's row, changes that row, and
-- calls the one place where tokens are made, which asks the policy engine and narrows the scopes.
-- Revocation and introspection read and write the same tables by the hash of the token. A step-up
-- token is issued against a password, a passkey or a code that the second factor accepts. The policies
-- that the endpoint, the grants and the two gates ask are rows that their service keeps compiled in
-- an engine.
--
-- Files, and the code that they model:
--   Prelude        shared names; tests on native numbers, integers, tables as lists of rows, lists in
--                  order, lists of names
--   Errors         pkg/errors.go
--   Exec           Go methods as functions from a state to a result and a state; a write that was
--                  made before an error is kept, as the code keeps it outside a transaction
--   Model          model/*.go: one record per table, and the Boolean methods; Model.Schema is the
--                  database and the state
--   World          what is outside the repository: the clock, the digests, the random generator,
--                  the failures of the database driver, and gorm's transactions
--   Text           what the Go library does to texts, over the tables of package unicode
--   Session        session/service.go and session/repository.go
--   Password       password/policy.go, password/validator.go; Password.Stored is password/service.go
--   ActionToken    actiontoken/token.go: Claims, Sign and Parse
--   Users          user/service.go and user/repository.go: Authenticate, incrementFailedAttempts,
--                  maybeRehash, VerifyPassword, Unlock, SetPassword, SetInitialPassword,
--                  ChangePassword, ResetPassword; Users.Signup is Register, SendVerificationEmail,
--                  ResendVerificationEmail, ConsumeVerificationToken, ForgotPassword and
--                  AdminTriggerPasswordReset; Users.Signup.Collaborator is the user service that
--                  oauth/service.go calls
--   Oauth.Scopes   the pure functions on scopes at the end of oauth/service.go
--   Oauth.Modify   oauth/policy_modify.go
--   Oauth.Service  the service's collaborators: the policy evaluator, the resource validator, the
--                  role provider, the MFA validator, the user service, the JWT signer and the ID token
--                  generator and validator are parameters, of which Mfa.Validator, Users.Signup and
--                  Policy.Gates fill three
--   Oauth.Repository  oauth/repository.go, each method as what its SQL selects and writes
--   Oauth.Params, Oauth.Start  InitAuthorizeParams and InitAuthorize of oauth/service.go; below
--                  Oauth.Start: Silent (handlePromptNone, trySilentSSO), Init, Pushed (CreatePAR,
--                  InitAuthorizeFromPAR)
--   Oauth.Login    AuthorizeLogin, AuthorizeRegister, AuthorizeMFA, ResumeAuthorizeAfterExternalLogin;
--                  Oauth.Login.Verified is CompleteAfterEmailVerification and BuildAuthorizeRedirectURL
--   Oauth.Login.Reach  the calls of the endpoint as steps on the tables, in any order
--   Oauth.Authorize, Oauth.Hybrid  AuthorizeConsent, CompleteAuthorizeFirstParty and
--                  completeAuthorize of oauth/service.go
--   Oauth.Issue    issueTokensWithOpts of oauth/service.go
--   Oauth.Code, Oauth.Refresh, Oauth.Credentials  ExchangeAuthorizationCode, ExchangeRefreshToken,
--                  ExchangeClientCredentials of oauth/service.go
--   Oauth.Device   oauth/device.go
--   Oauth.Revoke, Oauth.Introspect  oauth/revoke.go, oauth/introspect.go
--   Mfa            mfa/service.go and mfa/repository.go
--   Reauth         reauth/service.go and reauth/repository.go
--   Policy.Engine  policy/engine.go
--   Policy.Service  policy/service.go and policy/repository.go
--   Policy.Inputs  policy/inputs/inputs.go
--   Policy.Gates   policy/adapter.go, policy/middleware.go, account/policy.go
--   Tests          a sample state and requests, at which the theorems are applied
--
-- Conventions. A UUID is a number, a time a number of nanoseconds, a lifetime a number of seconds;
-- none is negative. Go's `int` is an integer where it may be negative (priorities, the bounds of
-- passwords); the 64-bit product of max_age keeps its wrap-around. Optional columns are options.
-- `breaks` of the world says for each repository method whether the driver reports an error, so that
-- every error path is a branch of the model. A draw from the random generator is numbered and may
-- fail. A transaction keeps the tables that its body left when the body returns no error and restores
-- them when it returns one; these are the two laws of `after_transaction`. The law of the resource
-- validator is that the scopes that it allows are among those that it is asked for; that of the user
-- service and the MFA validator is that they write no authorization request; that of the hasher is
-- that it accepts what it hashed. golang-jwt is a parameter with two laws: what ParseWithClaims returns
-- has a signature that verifies with one of the valid methods, under the key that the key function
-- gives for it, and an expiry ahead of the clock where it has one, which it must have when the option
-- asks for it. gorm's Save updates the row of its key, or inserts the row where there is none, and its
-- Create replaces a zero value by the column's default, which changes the flag of an inactive policy.
-- The loop of user codes is recursion on the number of letters, that
-- of backup codes on their number, those of the engine on its policies; nothing else needs a bound.
-- The TOTP library is a parameter: a test of a code at a time, and new keys. OPA is a parameter too:
-- a module and a query give a function from inputs to results, or an error. sort.Slice is one that
-- permutes its slice and sorts it by an integer key. The model runs one method of the engine at a
-- time; the interleavings that are modelled are those between whole requests, and those between the
-- statements of two requests where a file says so (Oauth.Device.Races, Reauth.Laws).
--
-- Not modelled: logging, metrics and audit rows, but for the denials that policy/service.go logs; the
-- texts that Go appends to an error from the driver or a library; the HTTP handlers; the
-- profiles and the administration of users, and passkeys, federation, invitations, registration forms,
-- roles, API resources, clients, OIDC claims and mail; cryptography, the encoding of JWTs
-- and the evaluation of Rego, which are libraries; EvaluateRaw and Replay, which try a policy out; the rate
-- limiter, whose buckets are floating-point numbers.
pub mod Policy
pub mod Prelude
pub mod Errors
pub mod Exec
pub mod Model
pub mod World
pub mod Text
pub mod Password
pub mod Session
pub mod Mfa
pub mod Reauth
pub mod ActionToken
pub mod Users
pub mod Oauth
pub mod Tests
