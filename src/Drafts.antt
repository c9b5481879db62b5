-- ===== src/Drafts.antt =====
-- lspserver/src/DraftStore.cpp: the versions of the files that the client has open.
pub mod Version
pub mod Store
mod Tests
