-- ===== src/App.antt =====
-- python/fastapi_turbo/applications.py: the parts of the class `FastAPI` and its helpers that decide
-- what runs, in which order, and what an error becomes.
pub mod Lifecycle
pub mod Lifespan
pub mod Exceptions
pub mod Teardown
pub mod Routes
mod Tests
