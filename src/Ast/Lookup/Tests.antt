-- ===== src/Ast/Lookup/Tests.antt =====
-- Runs of the lookups, on the list `[1 2]` in one line.
use nixd.Prelude.{ℕ, ◌+◌, ◌==◌, if◌then◌else◌, none, some, pos, ◌≡◌, refl}
use nixd.Ast.Expr.{Expr, expr_list, expr_int, more_exprs, end_exprs}
use nixd.Ast.Lookup.{
  ParseData, to_lsp_pos, l_range, seen_range, min_from, lookup_contain_min, end_from, lookup_end,
  start_from, lookup_start, nothing,
}
use nixd.Ast.Lookup.Smallest.{AllNested, MinAt, lookup_contain_min-MinAt}
use nixd.Ast.Lookup.Nearest.{IsNearest, starts_behind, starts_from, lookup_start-IsNearest}
use nixd.Ast.Visit.{traverse, traverse_exprs}
use nixd.Protocol.{Position, contains, contains_range}

abbrev one : Expr
one = expr_int 2

abbrev two : Expr
two = expr_int 3

abbrev tree : Expr
tree = expr_list 1 (more_exprs one (more_exprs two end_exprs))

-- A position index is the column; a node of one digit ends one column behind its start.
abbrev parsed : ParseData
parsed = record {
  locations = λ p. if p == 1 then some 1 else if p == 2 then some 2 else some 4;
  ends = λ b. if b == 1 then some 6 else some (b + 1);
  positions = λ i. record { line = 1; column = i };
}

abbrev column : ℕ → Position
column n = record { line = pos 0; character = pos n }

lookup_runs :
    (lookup_contain_min parsed tree (column 1) ≡ some one)
    × (lookup_contain_min parsed tree (column 2) ≡ some tree)
    × (lookup_contain_min parsed tree (column 5) ≡ none)
    × (lookup_end parsed tree (column 4) ≡ some one)
    × (lookup_start parsed tree (column 2) ≡ some two)
unfolding lookup_contain_min min_from lookup_end end_from lookup_start start_from seen_range l_range
    to_lsp_pos contains contains_range traverse traverse_exprs
lookup_runs = (refl, refl, refl, refl, refl)

tree-AllNested : AllNested parsed (column 1) (traverse tree tree)
unfolding seen_range l_range to_lsp_pos contains contains_range traverse traverse_exprs
tree-AllNested = ((refl, (refl, tt)), ((refl, tt), (tt, tt)))

lookup_contain_min-MinAt_example :
    MinAt parsed (column 1) (traverse tree tree) (lookup_contain_min parsed tree (column 1))
lookup_contain_min-MinAt_example = lookup_contain_min-MinAt parsed (column 1) tree tree-AllNested

lookup_start-IsNearest_example :
    IsNearest parsed
      (starts_behind parsed (column 4))
      (starts_from parsed (column 4))
      nothing
      (traverse tree tree)
      (lookup_start parsed tree (column 4))
lookup_start-IsNearest_example = lookup_start-IsNearest parsed (column 4) tree
