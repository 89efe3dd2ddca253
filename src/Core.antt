-- ===== src/Core.antt =====
-- internal/core/core.go: the domain types and the checks on what users send.
pub mod Errors
pub mod Enums
pub mod Roles
pub mod Names
pub mod Model
pub mod Spec
pub mod Routes
pub mod Revision
