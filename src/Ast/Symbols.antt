-- ===== src/Ast/Symbols.antt =====
-- `collectSymbols` of nixd/lib/Expr/Expr.cpp: the names that can be completed at a node.
use nixd.Prelude.{
  ℕ, zero, suc, ◌+◌, Option, none, some, List, [], ◌∷◌, ◌++◌, length, ◌==◌, if◌then◌else◌,
}
use nixd.Ast.Expr.{
  Ptr, Symbol, Expr, Attrs, Formals, ptr, null, expr_attrs, expr_let, expr_lambda, end_attrs,
  attr_def, end_formals, formal,
}
use nixd.Ast.Lookup.{ParseData, lookup_contain_min}
use nixd.Ast.Visit.{NodeMap, at, get_parent_map}
use nixd.Protocol.{Position}

abbrev pub attr_names : Attrs → List Symbol
attr_names end_attrs = []
attr_names (attr_def s inherited e pos displ rest) = s ∷ attr_names rest

abbrev pub formal_names : Formals → List Symbol
formal_names end_formals = []
formal_names (formal s pos def rest) = s ∷ formal_names rest

-- A lambda without a named argument has the unset symbol.
abbrev pub arg_name : Symbol → List Symbol
arg_name zero = []
arg_name (suc arg) = suc arg ∷ []

-- What `collectSymbols` takes from one node.
unfoldable pub names_of : Expr → List Symbol
names_of (expr_attrs p recursive attrs dynamic) = if recursive then attr_names attrs else []
names_of (expr_let p q recursive attrs dynamic body) = attr_names attrs
names_of (expr_lambda p arg has formals body) =
    arg_name arg ++ (if has then formal_names formals else [])
names_of _ = []

-- The names from the node up to the root; `none` where the fuel runs out.
abbrev pub and_above : List Symbol → Option (List Symbol) → Option (List Symbol)
and_above names none = none
and_above names (some above) = some (names ++ above)

abbrev pub collect_above :
    (Expr → Option (List Symbol)) → Ptr → List Symbol → Option Expr → Option (List Symbol)
collect_above collect node names none = some names
collect_above collect node names (some parent) =
    if ptr parent == node then some names else and_above names (collect parent)

unfoldable pub collect_from : ℕ → NodeMap → Expr → Option (List Symbol)
collect_from zero m node = none
collect_from (suc fuel) m node =
    collect_above (collect_from fuel m) (ptr node) (names_of node) (at m (ptr node))

-- `collectSymbols` of a node; the parents in the map are no null pointers. The climb makes at most
-- one step for each entry of the map.
unfoldable pub collect_symbols : NodeMap → Expr → Option (List Symbol)
collect_symbols m null = some []
collect_symbols m node = collect_from (length m + 1) m node

-- The labels of `completion`, at the node that lies at the position.
abbrev pub complete_at : NodeMap → Option Expr → Option (List Symbol)
complete_at m none = some []
complete_at m (some node) = collect_symbols m node

unfoldable pub completion : ParseData → Expr → Position → Option (List Symbol)
completion data' root pos = complete_at (get_parent_map root) (lookup_contain_min data' root pos)
