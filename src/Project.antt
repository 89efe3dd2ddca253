-- ===== src/Project.antt =====
-- internal/service/project_service.go: who reaches what, how membership and grants change, and the
-- projects themselves.
pub mod Access
pub mod Members
pub mod Notices
pub mod Grants
pub mod Settings
pub mod Fleet
