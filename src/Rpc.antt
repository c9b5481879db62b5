-- ===== src/Rpc.antt =====
-- lspserver/src/LSPServer.cpp: the calls to the client that wait for their reply.
pub mod Pending
pub mod Table
pub mod Run
pub mod Once
pub mod Replies
pub mod Fate
pub mod Handlers
pub mod Tests
