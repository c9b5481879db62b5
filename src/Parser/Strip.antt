-- ===== src/Parser/Strip.antt =====
-- `stripIndentation` on a string of one piece, against its lines.
use nixd.Prelude.{
  ℕ, suc, zero, Bool, true, false, Option, none, some, List, [], ◌∷◌, ◌++◌, map, Bytes, take, drop,
  ◌==◌, if◌then◌else◌, ◌≡◌, refl, sym, ap, ◌∙◌, arith, All, Bool-cases, inl, inr, Option-cases,
}
use nixd.Parser.Indent.{
  trim_chars, find_last_newline, one_further, only_spaces, cut_after, drop_last_line, string_token,
  string, single, scan_part, trim_part, scan, trim, strip_indentation,
}
use nixd.Parser.Lines.{
  add_char, split_lines, join_lines, drop_spaces, blank_last, all_lines, indentation, strip_lines,
}
use nixd.Parser.Scanned.{scanned_zero, min_indent-scan_chars}
use nixd.Parser.Indented.{trimmed, trimmed_zero, s2-trim_chars}

-- A line has no newline.
abbrev IsLine : Bytes → Type 0
IsLine l = find_last_newline l ≡ none

line_tail : (b : Bool) (o : Option ℕ) → one_further b o ≡ none → o ≡ none
line_tail b none h = refl
line_tail b (some p) h = ground arith

drop_spaces-IsLine : (n : ℕ) (l : Bytes) → IsLine l → IsLine (drop_spaces n l)
unfolding drop_spaces find_last_newline
drop_spaces-IsLine zero l h = h
drop_spaces-IsLine (suc n) [] h = h
drop_spaces-IsLine (suc n) (c ∷ cs) h = elim (Bool-cases (c == b' ')) [
  | inl q ↦
      rw (q, drop_spaces)
        (drop_spaces-IsLine n cs (line_tail (c == b'\n') (find_last_newline cs) h))
  | inr q ↦ rw (q, drop_spaces) h
]

map-IsLine : (n : ℕ) (ls : List Bytes) → All IsLine ls → All IsLine (map (drop_spaces n) ls)
map-IsLine n [] h = tt
map-IsLine n (l ∷ ls) (h, hs) = (drop_spaces-IsLine n l h, map-IsLine n ls hs)

add_char-IsLine :
    (b : Bool) (c : ℕ) (p : Bytes × List Bytes)
    → (c == b'\n') ≡ b
    → All IsLine (all_lines p)
    → All IsLine (all_lines (add_char b c p))
unfolding find_last_newline
add_char-IsLine true c (line, lines) e h = (refl, h)
add_char-IsLine false c (line, lines) e (h, hs) =
    (ap (λ o. one_further (c == b'\n') o) h ∙ ap (λ b. one_further b none) e, hs)

split_lines-IsLine : (cs : Bytes) → All IsLine (all_lines (split_lines cs))
unfolding split_lines find_last_newline
split_lines-IsLine [] = (refl, tt)
split_lines-IsLine (c ∷ cs) =
    add_char-IsLine (c == b'\n') c (split_lines cs) refl (split_lines-IsLine cs)

abbrev HasNewline : Bytes → Type 0
HasNewline s = (p : ℕ) × (find_last_newline s ≡ some p)

append-HasNewline : (l s : Bytes) → HasNewline s → HasNewline (l ++ s)
unfolding find_last_newline
append-HasNewline [] s h = h
append-HasNewline (c ∷ l) s h =
    let (p, e) = append-HasNewline l s h in (suc p, ap (λ o. one_further (c == b'\n') o) e)

newline-HasNewline : (s : Bytes) → HasNewline (b'\n' ∷ s)
unfolding find_last_newline
newline-HasNewline s = elim (Option-cases (find_last_newline s)) [
  | inl e ↦ (0, ap (λ o. one_further true o) e)
  | inr (p, e) ↦ (suc p, ap (λ o. one_further true o) e)
]

if_cons : (b : Bool) (c : ℕ) (x y : Bytes) → (if b then c ∷ x else c ∷ y) ≡ c ∷ (if b then x else y)
if_cons true c x y = refl
if_cons false c x y = refl

drop_last_line-cons :
    (c : ℕ) (s : Bytes) → HasNewline s → drop_last_line (c ∷ s) ≡ c ∷ drop_last_line s
unfolding drop_last_line find_last_newline
drop_last_line-cons c s (p, e) =
    ap (λ o. cut_after (c ∷ s) (one_further (c == b'\n') o)) e
    ∙ if_cons (only_spaces (drop (suc p) s)) c (take (suc p) s) s
    ∙ ap (λ o. c ∷ cut_after s o) (sym e)

drop_last_line-append :
    (l s : Bytes) → HasNewline s → drop_last_line (l ++ s) ≡ l ++ drop_last_line s
drop_last_line-append [] s h = refl
drop_last_line-append (c ∷ l) s h =
    drop_last_line-cons c (l ++ s) (append-HasNewline l s h)
    ∙ ap (λ t. c ∷ t) (drop_last_line-append l s h)

drop_last_line-newline :
    (s : Bytes) → IsLine s → drop_last_line (b'\n' ∷ s) ≡ b'\n' ∷ (if only_spaces s then [] else s)
unfolding drop_last_line find_last_newline
drop_last_line-newline s h =
    ap (λ o. cut_after (b'\n' ∷ s) (one_further true o)) h ∙ if_cons (only_spaces s) b'\n' [] s

-- What `drop_last_line` leaves of lines.
drop_last_line-join_lines :
    (l : Bytes) (ls : List Bytes)
    → All IsLine (l ∷ ls)
    → drop_last_line (join_lines l ls) ≡ join_lines l (blank_last ls)
unfolding join_lines blank_last drop_last_line
drop_last_line-join_lines l [] (h, hs) = ap (λ o. cut_after l o) h
drop_last_line-join_lines l (m ∷ []) (h, (k, hs)) =
    drop_last_line-append l (b'\n' ∷ m) (newline-HasNewline m)
    ∙ ap (λ t. l ++ t) (drop_last_line-newline m k)
drop_last_line-join_lines l (m ∷ n ∷ ls) (h, hs) =
    drop_last_line-append l (b'\n' ∷ join_lines m (n ∷ ls))
      (newline-HasNewline (join_lines m (n ∷ ls)))
    ∙ ap (λ t. l ++ t)
        (drop_last_line-cons b'\n' (join_lines m (n ∷ ls))
          (append-HasNewline m (b'\n' ∷ join_lines n ls) (newline-HasNewline (join_lines n ls))))
    ∙ ap (λ t. l ++ b'\n' ∷ t) (drop_last_line-join_lines m (n ∷ ls) hs)

drop_last_line-trimmed :
    (n : ℕ) (p : Bytes × List Bytes)
    → All IsLine (all_lines p)
    → drop_last_line (trimmed n true 0 p) ≡ strip_lines n p
drop_last_line-trimmed n (l, ls) (h, hs) =
    ap drop_last_line (trimmed_zero n (l, ls))
    ∙ drop_last_line-join_lines (drop_spaces n l) (map (drop_spaces n) ls)
        (drop_spaces-IsLine n l h, map-IsLine n ls hs)

module _ {Pos Expr : Type 0} where
  -- `stripIndentation` on a string of one indented piece takes from the start of each line as many
  -- spaces as the least indented line has, lines of spaces not counted, and at most 1000000; a line
  -- with fewer loses those it has, and a last line of spaces alone becomes empty.
  pub strip_indentation-strip_lines :
      (is_string : Expr → Bool) (pos : Pos) (text : Bytes)
      → strip_indentation is_string
          ((pos, string_token (record { text = text; has_indentation = true })) ∷ [])
        ≡ single (string (strip_lines (indentation text) (split_lines text)))
  unfolding strip_indentation scan scan_part trim trim_part indentation
  strip_indentation-strip_lines is_string pos text =
      ap
        (λ n. single (
          string (
            drop_last_line
              (trim_chars n (record { at_start_of_line = true; cur_dropped = 0; s2 = [] })
                text).s2)))
        (min_indent-scan_chars 1000000 true 0 text ∙ scanned_zero 1000000 (split_lines text))
      ∙ ap (λ t. single (string (drop_last_line t)))
          (s2-trim_chars (indentation text) true 0 [] text)
      ∙ ap (λ t. single (string t))
          (drop_last_line-trimmed (indentation text) (split_lines text) (split_lines-IsLine text))
