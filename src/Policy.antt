-- ===== src/Policy.antt =====
-- The package policy: the OPA policies, their engine, their administration and their adapters.
pub mod Engine
pub mod Service
pub mod Inputs
pub mod Gates
