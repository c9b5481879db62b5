-- ===== src/Trees.antt =====
-- nixd/lib/Server/ASTManager.cpp: the parsed trees that the requests wait for.
pub mod Manager
pub mod Origin
mod Actions
mod Waiting
mod Served
mod Tests
