-- ===== src/Middleware.antt =====
-- python/fastapi_turbo/middleware and authentication.py: what a middleware lets through to the
-- application, and what it answers itself.
pub mod Chain
pub mod Registry
pub mod Session
pub mod Shim
pub mod TrustedHost
pub mod Auth
mod Tests
