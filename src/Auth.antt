-- ===== src/Auth.antt =====
-- internal/auth: the signatures of requests, and the middleware that checks them.
pub mod Signature
pub mod Middleware
