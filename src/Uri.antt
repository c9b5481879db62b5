-- ===== src/Uri.antt =====
-- lspserver/src/URI.cpp: percent-encoding, and the printing and parsing of URIs.
pub mod Chars
pub mod Percent
pub mod Parse
pub mod RoundTrip
pub mod Tests
