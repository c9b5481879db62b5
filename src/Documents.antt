-- ===== src/Documents.antt =====
-- The documents that the client has open, as nixd/lib/Server/Controller.cpp keeps them.
pub mod Sync
pub mod View
pub mod Scheduled
pub mod Pool
pub mod Sample
mod Tests
