-- ===== src/Identity.antt =====
-- Canonical identities and compiled patterns, package internal/identity.
pub mod Names
pub mod Value
pub mod Pattern
pub mod Text
mod Tests
