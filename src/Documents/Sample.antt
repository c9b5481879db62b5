-- ===== src/Documents/Sample.antt =====
-- Versions as text, for runs.
use nixd.Prelude.{
  ℕ, zero, suc, if◌then◌else◌, ◌+◌, ◌&&◌, Option, some, [], ◌∷◌, Bytes, leb, length, ℤ, pos, negsuc,
  ◌==◌,
}
use nixd.Documents.Sync.{VersionOps}

-- A version in unary: its marks are digits, after another byte for a negative number.
abbrev marks : ℕ → Bytes
marks zero = []
marks (suc n) = b'1' ∷ marks n

abbrev unary : ℤ → Bytes
unary (pos n) = marks n
unary (negsuc n) = b'-' ∷ marks n

abbrev of_unary : Bytes → Option ℤ
of_unary [] = some (pos 0)
of_unary (c ∷ cs) = if c == b'-' then some (negsuc (length cs)) else some (pos (length cs + 1))

abbrev pub unary_ops : VersionOps
unary_ops = record {
  to_string = unary;
  to_integer = of_unary;
  is_digit = λ c. leb b'0' c && leb c b'9';
}
