-- ===== src/Parser/Tests.antt =====
-- Runs of `stripIndentation`, `toFormals` and `addAttr`.
use nixd.Prelude.{
  some, none, List, ◌||◌, ◌==◌, ◌↔◌, ◌≤◌, count, arith, ℕ, Bool, true, false, [], ◌∷◌, ◌++◌, Bytes,
  codes, ◌≡◌, refl,
}
use nixd.Parser.Indent.{
  Part, expr, string_token, string, single, concat_strings, strip_indentation, scan, scan_part,
  scan_chars, scan_char, trim, trim_part, trim_chars, trim_char, drop_last_line, find_last_newline,
  only_spaces,
}
use nixd.Parser.Lines.{split_lines, strip_lines, indentation}
use nixd.Parser.Strip.{strip_indentation-strip_lines}
use nixd.Parser.Formals.{
  Formal, ParserFormals, to_formals, sort_formals, insert_formal, find_duplicate,
}
use nixd.Parser.Duplicates.{names}
use nixd.Parser.Distinct.{AllDiffer, IsFirst, to_formals-AllDiffer}
use nixd.Parser.Attrs.{
  attr_set, other, entry, end_entries, dynamic, end_dynamics, AttrSet, new_set, static,
  path_defined, find_attr, emplace, write_node, push_back, merge, add_attr,
}
use nixd.Parser.Paths.{symbols, IsAdded, is_free, add_attr-IsAdded}

-- No expression is a string.
abbrev never : ℕ → Bool
never e = false

abbrev indented : Bytes → Part ℕ
indented text = string_token (record { text = text; has_indentation = true })

abbrev two_lines : Bytes
two_lines = b'\n' ∷ codes "  a" ++ b'\n' ∷ codes "    b" ++ b'\n' ∷ codes " "

-- The text loses two spaces on each line and the spaces of the last line; before an expression the
-- spaces count as indentation.
strip_indentation_runs :
    (strip_indentation {Pos = ℕ} never ((0, indented two_lines) ∷ [])
      ≡ single (string (b'\n' ∷ codes "a" ++ b'\n' ∷ codes "  b" ++ b'\n' ∷ [])))
    × (strip_indentation {Pos = ℕ} never
          ((0, indented (codes "  ")) ∷ (1, expr 7) ∷ (2, indented (b'\n' ∷ codes "   ")) ∷ [])
        ≡ concat_strings ((0, string []) ∷ (1, expr 7) ∷ (2, string (b'\n' ∷ [])) ∷ []))
    × (strip_indentation {Pos = ℕ} never ((0, expr 7) ∷ []) ≡ concat_strings ((0, expr 7) ∷ []))
unfolding strip_indentation scan scan_part scan_chars scan_char trim trim_part trim_chars trim_char
    drop_last_line find_last_newline only_spaces
strip_indentation_runs = (refl, refl, refl)

strip_indentation-strip_lines_example :
    strip_indentation {Pos = ℕ} never ((0, indented two_lines) ∷ [])
    ≡ single (string (strip_lines (indentation two_lines) (split_lines two_lines)))
strip_indentation-strip_lines_example = strip_indentation-strip_lines {Pos = ℕ} never 0 two_lines

-- A search from the start in place of `nix::Formals::has`.
abbrev has : List Formal → ℕ → Bool
has [] a = false
has (f ∷ fs) a = (f.name == a) || has fs a

has-count : (fs : List Formal) (a : ℕ) → (has fs a ≡ true) ↔ (1 ≤ count a (names fs))
has-count [] a = ground arith
has-count (f ∷ fs) a = ground (arith, has-count fs a)

-- `{ b, a, b, a }@a`
abbrev twice : ParserFormals
twice = record {
  formals =
      record { name = 5; pos = 1 }
      ∷ record { name = 4; pos = 2 }
      ∷ record { name = 5; pos = 3 }
      ∷ record { name = 4; pos = 4 }
      ∷ [];
  ellipsis = false;
}

to_formals-run :
    (to_formals has twice 9 4).0
    ≡ record { symbol = 4; position = 4 } ∷ record { symbol = 4; position = 9 } ∷ []
unfolding to_formals sort_formals insert_formal find_duplicate
to_formals-run = refl

to_formals-AllDiffer_example :
    (((to_formals has twice 9 4).0 ≡ []) ↔ AllDiffer twice.formals 4)
    × IsFirst twice.formals (to_formals has twice 9 4).0
to_formals-AllDiffer_example = to_formals-AllDiffer has (λ fs a s. has-count fs a) twice 9 4

-- `{ a.b = e1; }`, of the symbols 1 and 2.
abbrev one_path : AttrSet
one_path = record {
  recursive = false;
  entries =
      entry 1 false (attr_set false (entry 2 false (other 11) 5 end_entries) end_dynamics) 5
        end_entries;
  dynamics = end_dynamics;
}

-- `a.b = ...` twice is refused; `a.c = ...` is put beside; of `a = { ${e7} = e8; c = e9; }` the
-- dynamic attribute is lost.
add_attr_runs :
    (add_attr (static 1) (static 2 ∷ []) (other 11) 5 new_set
      ≡ record { error = none; set = one_path })
    × ((add_attr (static 1) (static 2 ∷ []) (other 12) 6 one_path).error ≡ some (path_defined 5))
    × ((add_attr (static 1) (static 3 ∷ []) (other 12) 6 one_path).set.entries
        ≡ entry 1 false
            (attr_set false
              (entry 2 false (other 11) 5 (entry 3 false (other 12) 6 end_entries))
              end_dynamics)
            5
            end_entries)
    × (add_attr
          (static 1)
          []
          (attr_set true
            (entry 3 false (other 9) 6 end_entries)
            (dynamic 7 (other 8) 6 end_dynamics))
          6
          one_path
        ≡ record {
          error = none;
          set = record one_path {
            entries =
                entry 1 false
                  (attr_set false
                    (entry 2 false (other 11) 5 (entry 3 false (other 9) 6 end_entries))
                    end_dynamics)
                  5
                  end_entries;
          };
        })
unfolding add_attr find_attr emplace write_node merge push_back
add_attr_runs = (refl, refl, refl, refl)

add_attr-IsAdded_example :
    IsAdded 1
      (3 ∷ [])
      12
      one_path
      (add_attr (static 1) (symbols (3 ∷ [])) (other 12) 6 one_path)
      (is_free 1 (3 ∷ []) one_path)
add_attr-IsAdded_example = add_attr-IsAdded 1 (3 ∷ []) 12 6 one_path
