-- ===== src/Support.antt =====
-- nixd/include/nixd/Support/Support.h: the choice among the answers of the workers.
mod Match
mod Best
mod Tests
