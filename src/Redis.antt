-- ===== src/Redis.antt =====
-- contrib_redis.py: the RESP2 reader, the command encoder and the multiplexed connection.
pub mod Reader
pub mod Wire
mod Layout
mod Header
pub mod RoundTrip
pub mod Encode
pub mod Mux
mod Tests
