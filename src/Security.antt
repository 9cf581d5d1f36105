-- ===== src/Security.antt =====
-- internal/security: the limits that the middleware puts on requests.
pub mod RateLimit
pub mod Csrf
