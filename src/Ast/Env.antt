-- ===== src/Ast/Env.antt =====
-- nixd/lib/Expr/Expr.cpp: which nodes create an environment, where their names are defined, and the
-- search for the node that created the environment of a variable.
use nixd.Prelude.{
  ℕ, zero, suc, ◌+◌, Bool, true, false, Option, none, some, length, ◌==◌, if◌then◌else◌,
}
use nixd.Ast.Expr.{
  Ptr, Symbol, PosIdx, Var, Expr, Attrs, Formals, ptr, expr_var, expr_attrs, expr_let, expr_lambda,
  expr_with, end_attrs, attr_def, end_formals, formal,
}
use nixd.Ast.Visit.{NodeMap, at}

-- `isEnvCreated(E, Child)`; for `ExprWith` the test is `E->body == Child`, of addresses.
unfoldable pub is_env_created : Expr → Expr → Bool
is_env_created (expr_attrs p recursive attrs dynamic) child = recursive
is_env_created (expr_with p prev attrs body) child = ptr body == ptr child
is_env_created (expr_lambda p arg has formals body) child = true
is_env_created (expr_let p q recursive attrs dynamic body) child = true
is_env_created _ child = false

-- The name and the position at a displacement, by advancing an iterator so far.
unfoldable pub attr_at : Attrs → ℕ → Option (Symbol × PosIdx)
attr_at end_attrs displ = none
attr_at (attr_def s inherited e pos d rest) zero = some (s, pos)
attr_at (attr_def s inherited e pos d rest) (suc displ) = attr_at rest displ

unfoldable pub formal_at : Formals → ℕ → Option (Symbol × PosIdx)
formal_at end_formals displ = none
formal_at (formal s pos def rest) zero = some (s, pos)
formal_at (formal s pos def rest) (suc displ) = formal_at rest displ

-- The argument of a lambda has displacement 0, and no position.
unfoldable pub lambda_at : Symbol → Formals → ℕ → Option (Symbol × PosIdx)
lambda_at zero formals displ = formal_at formals displ
lambda_at (suc arg) formals zero = some (suc arg, 0)
lambda_at (suc arg) formals (suc displ) = formal_at formals displ

-- What `getDisplOf(E, Displ)` finds, with the name that stands there. None is where an assertion
-- fails or the iterator passes the end.
unfoldable pub displ_at : Expr → ℕ → Option (Symbol × PosIdx)
displ_at (expr_attrs p true attrs dynamic) displ = attr_at attrs displ
displ_at (expr_let p q recursive attrs dynamic body) displ = attr_at attrs displ
displ_at (expr_lambda p arg has formals body) displ =
    lambda_at arg (if has then formals else end_formals) displ
displ_at _ displ = none

unfoldable pub get_displ_of : Expr → ℕ → Option PosIdx
get_displ_of e displ = elim (displ_at e displ) [ none ↦ none | some (s, pos) ↦ some pos ]

-- The results of the search: a node, `nullptr` at a node that is its own parent, and, of the model
-- alone, a node with no parent in the map (`at` throws) or fuel run out.
pub data Found : Type 0 where
  found : Expr → Found
  not_found : Found
  out_of_range : Found
  no_fuel : Found

-- The loop of `searchEnvExpr` at `EnvExpr = node` with `Level` levels to go.
unfoldable pub climb : ℕ → NodeMap → ℕ → Expr → Found
climb fuel m zero node = found node
climb zero m (suc level) node = no_fuel
climb (suc fuel) m (suc level) node = elim (at m (ptr node)) [
  | none ↦ out_of_range
  | some parent ↦
      let rest = climb fuel m (if is_env_created parent node then level else suc level) parent in
      if ptr parent == ptr node then not_found else rest
]

-- `searchEnvExpr`. A search makes no more steps than the map has entries, so these are the fuel.
unfoldable pub search_env_expr : Ptr → Var → NodeMap → Found
search_env_expr p v m = climb (length m) m (v.level + 1) (expr_var p v)

-- `searchDefinition`: `noPos` where there is no such node.
unfoldable pub search_definition : Ptr → Var → NodeMap → Option PosIdx
search_definition p v m = elim (search_env_expr p v m) [
  | found e ↦ get_displ_of e v.displ
  | not_found ↦ some 0
  | _ ↦ none
]
