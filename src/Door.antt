-- ===== src/Door.antt =====
-- The ASGI entry points of an application, `FastAPI.__call__` and what it dispatches to
-- (python/fastapi_turbo/applications.py).
pub mod Mount
pub mod Call
pub mod Oneshot
pub mod Socket
