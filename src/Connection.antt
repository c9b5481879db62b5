-- ===== src/Connection.antt =====
-- lspserver/src/Connection.cpp: messages on a byte stream, and what a message asks for.
pub mod Stream
pub mod Read
pub mod Send
pub mod Delivery
pub mod Framing
pub mod Total
pub mod Json
pub mod Dispatch
pub mod Loop
mod Tests
