-- ===== src/Server.antt =====
-- The server process (src/sqlbus.c and what it calls): the platform under it, its state, and the
-- parts that work on that state.
pub mod Platform
pub mod State
pub mod Exec
pub mod Catalog
pub mod Driver
pub mod Database
pub mod Redis
pub mod Request
pub mod Session
pub mod Response
pub mod Service
