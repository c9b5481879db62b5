-- ===== src/Parser/Scanned.antt =====
-- The first loop of `stripIndentation`, against the lines of a text.
use nixd.Prelude.{
  ℕ, ◌+◌, Bool, true, false, ◌&&◌, List, [], ◌∷◌, Bytes, ◌==◌, if◌then◌else◌, ◌≡◌, refl, sym, ap,
  ◌∙◌, arith, min, Bool-cases, inl, inr, ==_iff,
}
use nixd.Parser.Indent.{lower, scan_char, scan_chars, only_spaces}
use nixd.Parser.Lines.{add_char, split_lines, indent, least_indent, all_lines, kind_of}

abbrev pub scanned : ℕ → Bool → ℕ → Bytes × List Bytes → ℕ
scanned m true k (line, lines) =
    least_indent (if only_spaces line then m else min m (k + indent line)) lines
scanned m false k (line, lines) = least_indent m lines

lower-min : (cur least : ℕ) → lower cur least ≡ min least cur
lower-min cur least = ground arith

pub scanned_zero :
    (m : ℕ) (p : Bytes × List Bytes) → scanned m true 0 p ≡ least_indent m (all_lines p)
unfolding least_indent
scanned_zero m (line, lines) =
    ap (λ k. least_indent (if only_spaces line then m else min m k) lines) (omega arith)

scanned_space :
    (m k : ℕ) (p : Bytes × List Bytes)
    → scanned m true k (add_char false b' ' p) ≡ scanned m true (k + 1) p
unfolding only_spaces indent
scanned_space m k (line, lines) =
    ap (λ n. least_indent (if only_spaces line then m else min m n) lines) (omega arith)

scanned_other :
    (m k c : ℕ) (p : Bytes × List Bytes)
    → (c == b' ') ≡ false
    → scanned m true k (add_char false c p) ≡ scanned (lower k m) false k p
unfolding only_spaces indent
scanned_other m k c (line, lines) e =
    ap
      (λ b.
        least_indent
          (if b && only_spaces line then m else min m (k + (if b then indent line + 1 else 0)))
          lines)
      e
    ∙ ap (λ n. least_indent n lines) (ground arith)

-- The first loop, from any state.
pub min_indent-scan_chars :
    (m : ℕ) (at : Bool) (k : ℕ) (cs : Bytes)
    → (scan_chars (record { at_start_of_line = at; min_indent = m; cur_indent = k }) cs).min_indent
      ≡ scanned m at k (split_lines cs)
unfolding scan_chars scan_char split_lines least_indent only_spaces
min_indent-scan_chars m true k [] = refl
min_indent-scan_chars m false k [] = refl
min_indent-scan_chars m true k (c ∷ cs) = elim (kind_of c) [
  | inl e ↦
      rw e (min_indent-scan_chars m true (k + 1) cs ∙ sym (scanned_space m k (split_lines cs)))
  | inr (inl e) ↦ rw e (min_indent-scan_chars m true 0 cs ∙ scanned_zero m (split_lines cs))
  | inr (inr (e, q)) ↦
      rw (e, q, scan_chars)
        (min_indent-scan_chars (lower k m) false k cs
          ∙ sym (scanned_other m k c (split_lines cs) e))
]
min_indent-scan_chars m false k (c ∷ cs) = elim (Bool-cases (c == b'\n')) [
  | inl q ↦
      rw ((==_iff c b'\n').0 q)
        (min_indent-scan_chars m true 0 cs ∙ scanned_zero m (split_lines cs))
  | inr q ↦ rw (q, scan_chars) (min_indent-scan_chars m false k cs)
]
