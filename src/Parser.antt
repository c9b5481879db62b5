-- ===== src/Parser.antt =====
-- nixd/include/nixd/Parser/Prologue.cpp: what the actions of the grammar do.
mod Indent
mod Lines
mod Scanned
mod Indented
mod Strip
mod Formals
mod Attrs
mod Paths
mod Duplicates
mod Distinct
mod Tests
