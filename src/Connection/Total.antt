-- ===== src/Connection/Total.antt =====
-- The loops that read a message, and the items that each of their rounds takes.
use nixd.Prelude.{ℕ, ◌<◌, length}
use nixd.Connection.Stream.{Stream, ReadResult, at_end, minus_one, got}

-- Every result of a read leaves a shorter stream.
abbrev Shortens : ℕ → ReadResult → Type 0
Shortens n at_end = Unit
Shortens n (minus_one t) = length t < n
Shortens n (got bs t) = length t < n
