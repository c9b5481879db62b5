-- ===== src/Parser/Lines.antt =====
-- The lines of a text, a description of `stripIndentation` on a string of one piece.
use nixd.Prelude.{
  ℕ, suc, zero, ◌+◌, Bool, true, false, List, [], ◌∷◌, ◌++◌, map, Bytes, ◌==◌, if◌then◌else◌, ◌≡◌,
  ==_iff, min, Bool-cases, inl, inr, ◌⊎◌,
}
use nixd.Parser.Indent.{only_spaces}

-- The first line and the others.
abbrev pub add_char : Bool → ℕ → Bytes × List Bytes → Bytes × List Bytes
add_char true c (line, lines) = ([], line ∷ lines)
add_char false c (line, lines) = (c ∷ line, lines)

unfoldable pub split_lines : Bytes → Bytes × List Bytes
split_lines [] = ([], [])
split_lines (c ∷ cs) = add_char (c == b'\n') c (split_lines cs)

unfoldable pub join_lines : Bytes → List Bytes → Bytes
join_lines line [] = line
join_lines line (next ∷ lines) = line ++ b'\n' ∷ join_lines next lines

unfoldable pub indent : Bytes → ℕ
indent [] = 0
indent (c ∷ cs) = let n = indent cs in if c == b' ' then n + 1 else 0

-- The least indentation of the lines that have more than spaces, below a bound.
unfoldable pub least_indent : ℕ → List Bytes → ℕ
least_indent bound [] = bound
least_indent bound (line ∷ lines) =
    least_indent (if only_spaces line then bound else min bound (indent line)) lines

-- A line without the first `n` of its spaces.
unfoldable pub drop_spaces : ℕ → Bytes → Bytes
drop_spaces zero cs = cs
drop_spaces (suc n) [] = []
drop_spaces (suc n) (c ∷ cs) = let rest = drop_spaces n cs in if c == b' ' then rest else c ∷ cs

-- A last line of spaces becomes empty.
unfoldable pub blank_last : List Bytes → List Bytes
blank_last [] = []
blank_last (line ∷ []) = (if only_spaces line then [] else line) ∷ []
blank_last (line ∷ next ∷ lines) = line ∷ blank_last (next ∷ lines)

abbrev pub all_lines : Bytes × List Bytes → List Bytes
all_lines (line, lines) = line ∷ lines

unfoldable pub indentation : Bytes → ℕ
indentation text = least_indent 1000000 (all_lines (split_lines text))

abbrev pub strip_lines : ℕ → Bytes × List Bytes → Bytes
strip_lines n (line, lines) =
    join_lines (drop_spaces n line) (blank_last (map (drop_spaces n) lines))

-- A character is a space, a newline or another.
abbrev pub Other : ℕ → Type 0
Other c = ((c == b' ') ≡ false) × ((c == b'\n') ≡ false)

pub kind_of : (c : ℕ) → (c ≡ b' ') ⊎ ((c ≡ b'\n') ⊎ Other c)
kind_of c = elim (Bool-cases (c == b' ')) [
  | inl e ↦ inl ((==_iff c b' ').0 e)
  | inr e ↦ elim (Bool-cases (c == b'\n')) [
    | inl q ↦ inr (inl ((==_iff c b'\n').0 q))
    | inr q ↦ inr (inr (e, q))
  ]
]
