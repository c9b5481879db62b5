-- ===== src/Ast/Lookup.antt =====
-- nixd/lib/AST/ParseAST.cpp and nixd/include/nixd/AST/ParseAST.h: the nodes that lie at a position.
use nixd.Prelude.{
  ℕ, ◌-◌, ◌^◌, ℤ, max, Bool, ◌&&◌, ◌||◌, Option, none, some, List, [], ◌∷◌, ◌++◌, pos, negsuc,
  to_int, if◌then◌else◌,
}
use nixd.Ast.Expr.{Expr, Ptr, ptr, null}
use nixd.Ast.Visit.{Edge, traverse}
use nixd.Protocol.{Position, position_eq, position_lt, position_le, Range, contains, contains_range}
pub mod Ranges
pub mod Smallest
pub mod Nearest
mod Tests

-- `nix::Pos`, as far as it is read, and what the parser records: `locations` and `end` of
-- `ParseData`, and `nix::PosTable`, which belongs to Nix.
pub record LineColumn : Type 0 where
  pub line : ℕ
  pub column : ℕ

pub record ParseData : Type 0 where
  pub locations : Ptr → Option ℕ
  pub ends : ℕ → Option ℕ
  pub positions : ℕ → LineColumn

unfoldable pub to_lsp_pos : LineColumn → Position
to_lsp_pos p = record { line = to_int (max 1 p.line - 1); character = to_int (max 1 p.column - 1) }

-- The members `R`, and `RR` or `RStart` and `REnd`, of the visitors.
pub record Best : Type 0 where
  pub node : Option Expr
  pub range : Range

abbrev pub corner : ℤ → Position
corner n = record { line = n; character = n }

-- From `INT_MIN` to `INT_MAX`, and from `INT_MAX` to `INT_MIN`.
abbrev pub everything : Range
everything = record { start = corner (negsuc (2 ^ 31 - 1)); end = corner (pos (2 ^ 31 - 1)) }

abbrev pub nothing : Range
nothing = record { start = corner (pos (2 ^ 31 - 1)); end = corner (negsuc (2 ^ 31 - 1)) }

module _ (data' : ParseData) where
  abbrev pub range_from : ℕ → Option ℕ → Option Range
  range_from begin none = none
  range_from begin (some end') = some (record {
    start = to_lsp_pos (data'.positions begin);
    end = to_lsp_pos (data'.positions end');
  })

  abbrev pub range_at : Option ℕ → Option Range
  range_at none = none
  range_at (some begin) = range_from begin (data'.ends begin)

  -- `lRange`; `none` where a lookup throws.
  unfoldable pub l_range : Ptr → Option Range
  l_range p = range_at (data'.locations p)

  -- `lRange` of a node that the visitor visits; it does not visit null pointers.
  unfoldable pub seen_range : Expr → Option Range
  seen_range null = none
  seen_range e = l_range (ptr e)

  -- `lookupContain`, with the nodes found so far.
  abbrev pub visit_contain : Position → Expr → List Expr → Option Range → List Expr
  visit_contain desired e found none = found
  visit_contain desired e found (some r) = if contains r desired then found ++ e ∷ [] else found

  unfoldable pub contain_from : Position → List Edge → List Expr → List Expr
  contain_from desired [] found = found
  contain_from desired (e ∷ es) found =
      contain_from desired es (visit_contain desired e.0 found (seen_range e.0))

  abbrev pub lookup_contain : Expr → Position → List Expr
  lookup_contain root desired = contain_from desired (traverse root root) []

  -- `lookupContainMin`, with the node and the range of the smallest one so far.
  abbrev pub visit_min : Position → Expr → Best → Option Range → Best
  visit_min desired e b none = b
  visit_min desired e b (some r) =
      if contains r desired && contains_range b.range r
      then record { node = some e; range = r }
      else b

  unfoldable pub min_from : Position → List Edge → Best → Best
  min_from desired [] b = b
  min_from desired (e ∷ es) b = min_from desired es (visit_min desired e.0 b (seen_range e.0))

  unfoldable pub lookup_contain_min : Expr → Position → Option Expr
  lookup_contain_min root desired =
      (min_from desired (traverse root root) (record { node = none; range = everything })).node

  -- `lookupEnd`: the last end before the position, the innermost on a tie.
  abbrev pub visit_end : Position → Expr → Best → Option Range → Best
  visit_end desired e b none = b
  visit_end desired e b (some r) =
      if position_lt r.end desired
        && (position_lt b.range.end r.end
            || (position_eq b.range.end r.end && position_le b.range.start r.start))
      then record { node = some e; range = r }
      else b

  unfoldable pub end_from : Position → List Edge → Best → Best
  end_from desired [] b = b
  end_from desired (e ∷ es) b = end_from desired es (visit_end desired e.0 b (seen_range e.0))

  unfoldable pub lookup_end : Expr → Position → Option Expr
  lookup_end root desired =
      (end_from desired (traverse root root) (record { node = none; range = nothing })).node

  -- `lookupStart`: the first start at the position or behind it, the smallest on a tie.
  abbrev pub visit_start : Position → Expr → Best → Option Range → Best
  visit_start desired e b none = b
  visit_start desired e b (some r) =
      if position_le desired r.start
        && (position_lt r.start b.range.start
            || (position_eq r.start b.range.start && position_le r.end b.range.end))
      then record { node = some e; range = r }
      else b

  unfoldable pub start_from : Position → List Edge → Best → Best
  start_from desired [] b = b
  start_from desired (e ∷ es) b = start_from desired es (visit_start desired e.0 b (seen_range e.0))

  unfoldable pub lookup_start : Expr → Position → Option Expr
  lookup_start root desired =
      (start_from desired (traverse root root) (record { node = none; range = nothing })).node
