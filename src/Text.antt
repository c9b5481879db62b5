-- ===== src/Text.antt =====
-- lspserver/src/SourceCode.cpp: text measured in UTF-16 code units, positions and byte offsets, and
-- the edits that a client sends.
pub mod Units
pub mod Offset
pub mod Change
pub mod CodePoints
pub mod Lines
pub mod RoundTrip
pub mod Sound
pub mod Exact
pub mod Edits
mod Tests
