-- ===== src/Auth.antt =====
-- internal/service/auth_service.go: who a token is, how one is obtained and when it stops working.
pub mod Tokens
pub mod Login
pub mod Users
