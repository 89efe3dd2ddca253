-- ===== src/Proxy.antt =====
-- internal/infra/proxy: the registry of task routes, the choice of a hop for a request, the lock of a
-- site, and what a hop does to a request and its answer.
pub mod Registry
pub mod Seconds
pub mod Lock
pub mod Serve
pub mod Cookie
pub mod Rewrite
