-- ===== src/Pool.antt =====
-- runtime/pool: the worker process that forks an interpreter for each request.
pub mod Cipher
pub mod Child
pub mod Protocol
pub mod State
pub mod Worker
pub mod Tests
