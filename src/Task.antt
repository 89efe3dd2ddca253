-- ===== src/Task.antt =====
-- internal/service/task_service.go: the life of a task and its container.
pub mod Reply
pub mod Ready
pub mod Lifecycle
pub mod Update
pub mod Builds
pub mod Reconcile
pub mod Metrics
pub mod Console
