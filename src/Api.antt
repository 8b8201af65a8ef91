-- ===== src/Api.antt =====
-- The HTTP API: its guards (security/auth.py, api/dependencies.py), the middleware and the routes.
pub mod Auth
pub mod Dependencies
pub mod Generate
pub mod Middleware
pub mod Health
pub mod Routes
pub mod Serve
