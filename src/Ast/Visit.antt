-- ===== src/Ast/Visit.antt =====
-- The visitor of nixd/include/nixd/Expr/Expr.h over the children of Traverse.inc, as the list of the
-- nodes that it comes to, each with the node that it comes from, and the parent map that
-- nixd/lib/Expr/Expr.cpp makes of them.
use nixd.Prelude.{Option, none, some, List, [], ◌∷◌, ◌++◌, ◌==◌, if◌then◌else◌}
use nixd.Ast.Expr.{
  Ptr, Expr, Exprs, AttrPath, Attrs, DynamicAttrs, Formals, ptr, null, expr_error, expr_int,
  expr_float, expr_string, expr_path, expr_pos, expr_var, expr_select, expr_op_has_attr, expr_attrs,
  expr_list, expr_lambda, expr_call, expr_let, expr_with, expr_if, expr_assert, expr_op_not,
  expr_bin, expr_concat_strings, end_exprs, more_exprs, end_path, static_name, dynamic_name,
  end_attrs, attr_def, end_dynamic, dynamic_attr, end_formals, formal,
}

-- A node that the visitor comes to, and its parent.
abbrev pub Edge : Type 0
Edge = Expr × Expr

unfoldable mutual
  -- `traverseExpr(e)` from `parent`: the node itself, then what its `traverse` function goes to.
  -- A null child is come to, and nothing below it.
  pub traverse : Expr → Expr → List Edge
  traverse parent null = (null, parent) ∷ []
  traverse parent (expr_error p) = (expr_error p, parent) ∷ []
  traverse parent (expr_int p) = (expr_int p, parent) ∷ []
  traverse parent (expr_float p) = (expr_float p, parent) ∷ []
  traverse parent (expr_string p) = (expr_string p, parent) ∷ []
  traverse parent (expr_path p) = (expr_path p, parent) ∷ []
  traverse parent (expr_pos p) = (expr_pos p, parent) ∷ []
  traverse parent (expr_var p v) = (expr_var p v, parent) ∷ []
  traverse parent (expr_select p e path def) =
      let this = expr_select p e path def in
      (this, parent) ∷ (traverse this def ++ (traverse this e ++ traverse_path this path))
  traverse parent (expr_op_has_attr p e path) =
      let this = expr_op_has_attr p e path in
      (this, parent) ∷ (traverse this e ++ traverse_path this path)
  traverse parent (expr_attrs p recursive attrs dynamic) =
      let this = expr_attrs p recursive attrs dynamic in
      (this, parent) ∷ (traverse_attrs this attrs ++ traverse_dynamic this dynamic)
  traverse parent (expr_list p elems) =
      let this = expr_list p elems in (this, parent) ∷ traverse_exprs this elems
  traverse parent (expr_lambda p arg has formals body) =
      let this = expr_lambda p arg has formals body in
      (this, parent) ∷ ((if has then traverse_formals this formals else []) ++ traverse this body)
  traverse parent (expr_call p fun args) =
      let this = expr_call p fun args in
      (this, parent) ∷ (traverse_exprs this args ++ traverse this fun)
  traverse parent (expr_let p q recursive attrs dynamic body) =
      let this = expr_let p q recursive attrs dynamic body in
      let bindings = expr_attrs q recursive attrs dynamic in
      (this, parent)
      ∷ (((bindings, this) ∷ (traverse_attrs bindings attrs ++ traverse_dynamic bindings dynamic))
          ++ traverse this body)
  traverse parent (expr_with p prev attrs body) =
      let this = expr_with p prev attrs body in
      (this, parent) ∷ (traverse this attrs ++ traverse this body)
  traverse parent (expr_if p c t e) =
      let this = expr_if p c t e in
      (this, parent) ∷ (traverse this c ++ (traverse this t ++ traverse this e))
  traverse parent (expr_assert p c body) =
      let this = expr_assert p c body in (this, parent) ∷ (traverse this c ++ traverse this body)
  traverse parent (expr_op_not p e) = let this = expr_op_not p e in (this, parent) ∷ traverse this e
  traverse parent (expr_bin p op a b) =
      let this = expr_bin p op a b in (this, parent) ∷ (traverse this a ++ traverse this b)
  traverse parent (expr_concat_strings p es) =
      let this = expr_concat_strings p es in (this, parent) ∷ traverse_exprs this es

  pub traverse_exprs : Expr → Exprs → List Edge
  traverse_exprs this end_exprs = []
  traverse_exprs this (more_exprs e es) = traverse this e ++ traverse_exprs this es

  pub traverse_path : Expr → AttrPath → List Edge
  traverse_path this end_path = []
  traverse_path this (static_name s path) = traverse_path this path
  traverse_path this (dynamic_name e path) = traverse this e ++ traverse_path this path

  pub traverse_attrs : Expr → Attrs → List Edge
  traverse_attrs this end_attrs = []
  traverse_attrs this (attr_def s inherited e pos displ rest) =
      traverse this e ++ traverse_attrs this rest

  pub traverse_dynamic : Expr → DynamicAttrs → List Edge
  traverse_dynamic this end_dynamic = []
  traverse_dynamic this (dynamic_attr n v rest) =
      traverse this n ++ (traverse this v ++ traverse_dynamic this rest)

  pub traverse_formals : Expr → Formals → List Edge
  traverse_formals this end_formals = []
  traverse_formals this (formal s pos def rest) = traverse this def ++ traverse_formals this rest

-- `std::map` from nodes, by their addresses, to nodes, as its entries.
abbrev pub NodeMap : Type 0
NodeMap = List Edge

-- `at`, with none where it throws `std::out_of_range`.
unfoldable pub at : NodeMap → Ptr → Option Expr
at [] k = none
at ((c, p) ∷ m) k = if ptr c == k then some p else at m k

-- `insert`: an entry that is there stays.
unfoldable pub insert : Edge → NodeMap → NodeMap
insert e [] = e ∷ []
insert e (f ∷ m) = if ptr f.0 == ptr e.0 then f ∷ m else f ∷ insert e m

unfoldable pub insert_all : List Edge → NodeMap → NodeMap
insert_all [] m = m
insert_all (e ∷ es) m = insert_all es (insert e m)

-- `getParentMap`: the parent of the root is the root itself.
unfoldable pub get_parent_map : Expr → NodeMap
get_parent_map root = insert_all (traverse root root) []
