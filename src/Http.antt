-- ===== src/Http.antt =====
-- internal/transport/http: which route demands what, who is let in, and what an error is answered with.
pub mod Policy
pub mod Routes
pub mod Errors
pub mod Authorize
pub mod Events
