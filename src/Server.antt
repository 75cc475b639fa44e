-- ===== src/Server.antt =====
-- The HTTP server: server/src/handlers.rs, models.rs, services.rs, queue.rs, config.rs and the restart
-- of the worker in main.rs.
pub mod Config
pub mod Handlers
pub mod Restart
pub mod Queue
pub mod Template
pub mod NodeJs
pub mod Crypto
pub mod Child
pub mod Python
pub mod Process
pub mod Dependencies
pub mod Jail
pub mod Api
pub mod Startup
pub mod EndToEnd
pub mod Tests
