-- ===== src/Worker.antt =====
-- python/fastapi_turbo/_async_worker.py: the one event loop on a thread of its own, and how a caller
-- on another thread hands it a coroutine.
pub mod Init
pub mod Pool
pub mod Timeout
pub mod Submit
mod Tests
