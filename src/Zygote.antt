-- ===== src/Zygote.antt =====
-- server/src/services/zygote.rs: the pending map, the reader task and the manager of the worker.
pub mod Pending
pub mod Reader
pub mod Limit
pub mod Manager
pub mod Start
pub mod Tests
