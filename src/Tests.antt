-- ===== src/Tests.antt =====
-- Small tables and requests on which the theorems are applied.
mod Links
mod Sample
mod Sorting
mod Policies
mod Logins
mod Accounts
mod Grants
mod Devices
mod Tokens
mod Revocation
mod Stepup
mod Consents
