-- ===== src/Diagnostics.antt =====
-- nixd/lib/Server/Controller.cpp: the diagnostics that the evaluation workers report.
mod Status
mod Shown
mod Tests
