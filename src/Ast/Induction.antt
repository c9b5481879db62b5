-- ===== src/Ast/Induction.antt =====
-- Induction over a tree by its children, and the visitor's list by them.
use nixd.Prelude.{
  true, false, List, [], ◌∷◌, ◌++◌, append-nil, append_assoc, All, All-append, ◌≡◌, refl, sym, ap,
}
use nixd.Ast.Expr.{
  Expr, Exprs, AttrPath, Attrs, DynamicAttrs, Formals, null, expr_error, expr_int, expr_float,
  expr_string, expr_path, expr_pos, expr_var, expr_select, expr_op_has_attr, expr_attrs, expr_list,
  expr_lambda, expr_call, expr_let, expr_with, expr_if, expr_assert, expr_op_not, expr_bin,
  expr_concat_strings, end_exprs, more_exprs, end_path, static_name, dynamic_name, end_attrs,
  attr_def, end_dynamic, dynamic_attr, end_formals, formal, children, exprs_list, path_list,
  attrs_list, dynamic_list, formals_list,
}
use nixd.Ast.Visit.{
  Edge, traverse, traverse_exprs, traverse_path, traverse_attrs, traverse_dynamic, traverse_formals,
}

module _ {ℓ} (P : Expr → Type ℓ) (step : (e : Expr) → All P (children e) → P e) where
  mutual
    by_children : (e : Expr) → P e
    by_children null = step null tt
    by_children (expr_error p) = step (expr_error p) tt
    by_children (expr_int p) = step (expr_int p) tt
    by_children (expr_float p) = step (expr_float p) tt
    by_children (expr_string p) = step (expr_string p) tt
    by_children (expr_path p) = step (expr_path p) tt
    by_children (expr_pos p) = step (expr_pos p) tt
    by_children (expr_var p v) = step (expr_var p v) tt
    by_children (expr_select p e path def) =
        step (expr_select p e path def) (by_children def, (by_children e, by_path path))
    by_children (expr_op_has_attr p e path) =
        step (expr_op_has_attr p e path) (by_children e, by_path path)
    by_children (expr_attrs p recursive attrs dynamic) =
        step (expr_attrs p recursive attrs dynamic)
          (All-append P _ _ (by_attrs attrs) (by_dynamic dynamic))
    by_children (expr_list p elems) = step (expr_list p elems) (by_exprs elems)
    by_children (expr_lambda p arg true formals body) =
        step (expr_lambda p arg true formals body)
          (All-append P _ _ (by_formals formals) (by_children body, tt))
    by_children (expr_lambda p arg false formals body) =
        step (expr_lambda p arg false formals body) (by_children body, tt)
    by_children (expr_call p fun args) =
        step (expr_call p fun args) (All-append P _ _ (by_exprs args) (by_children fun, tt))
    by_children (expr_let p q recursive attrs dynamic body) =
        step (expr_let p q recursive attrs dynamic body) (
          step (expr_attrs q recursive attrs dynamic)
              (All-append P _ _ (by_attrs attrs) (by_dynamic dynamic)),
          (by_children body, tt),
        )
    by_children (expr_with p prev attrs body) =
        step (expr_with p prev attrs body) (by_children attrs, (by_children body, tt))
    by_children (expr_if p c t e) =
        step (expr_if p c t e) (by_children c, (by_children t, (by_children e, tt)))
    by_children (expr_assert p c body) =
        step (expr_assert p c body) (by_children c, (by_children body, tt))
    by_children (expr_op_not p e) = step (expr_op_not p e) (by_children e, tt)
    by_children (expr_bin p op a b) = step (expr_bin p op a b) (by_children a, (by_children b, tt))
    by_children (expr_concat_strings p es) = step (expr_concat_strings p es) (by_exprs es)

    by_exprs : (es : Exprs) → All P (exprs_list es)
    by_exprs end_exprs = tt
    by_exprs (more_exprs e es) = (by_children e, by_exprs es)

    by_path : (path : AttrPath) → All P (path_list path)
    by_path end_path = tt
    by_path (static_name s path) = by_path path
    by_path (dynamic_name e path) = (by_children e, by_path path)

    by_attrs : (attrs : Attrs) → All P (attrs_list attrs)
    by_attrs end_attrs = tt
    by_attrs (attr_def s inherited e pos displ rest) = (by_children e, by_attrs rest)

    by_dynamic : (dynamic : DynamicAttrs) → All P (dynamic_list dynamic)
    by_dynamic end_dynamic = tt
    by_dynamic (dynamic_attr n v rest) = (by_children n, (by_children v, by_dynamic rest))

    by_formals : (formals : Formals) → All P (formals_list formals)
    by_formals end_formals = tt
    by_formals (formal s pos def rest) = (by_children def, by_formals rest)

  pub tree_induction : (e : Expr) → P e
  tree_induction e = by_children e

-- What the visitor comes to from the node `this` by way of the given children.
abbrev pub traverse_all : Expr → List Expr → List Edge
traverse_all this [] = []
traverse_all this (c ∷ cs) = traverse this c ++ traverse_all this cs

traverse_all-append :
    (this : Expr) (xs ys : List Expr)
    → traverse_all this (xs ++ ys) ≡ traverse_all this xs ++ traverse_all this ys
traverse_all-append this [] ys = refl
traverse_all-append this (x ∷ xs) ys =
    rw (traverse_all-append this xs ys) (sym (append_assoc (traverse this x) _ _))

exprs-all : (this : Expr) (es : Exprs) → traverse_exprs this es ≡ traverse_all this (exprs_list es)
unfolding traverse_exprs
exprs-all this end_exprs = refl
exprs-all this (more_exprs e es) = ap (◌++◌ (traverse this e)) (exprs-all this es)

path-all :
    (this : Expr) (path : AttrPath) → traverse_path this path ≡ traverse_all this (path_list path)
unfolding traverse_path
path-all this end_path = refl
path-all this (static_name s path) = path-all this path
path-all this (dynamic_name e path) = ap (◌++◌ (traverse this e)) (path-all this path)

attrs-all :
    (this : Expr) (attrs : Attrs) → traverse_attrs this attrs ≡ traverse_all this (attrs_list attrs)
unfolding traverse_attrs
attrs-all this end_attrs = refl
attrs-all this (attr_def s inherited e pos displ rest) =
    ap (◌++◌ (traverse this e)) (attrs-all this rest)

dynamic-all :
    (this : Expr) (dynamic : DynamicAttrs)
    → traverse_dynamic this dynamic ≡ traverse_all this (dynamic_list dynamic)
unfolding traverse_dynamic
dynamic-all this end_dynamic = refl
dynamic-all this (dynamic_attr n v rest) =
    ap (λ (r : List Edge). traverse this n ++ (traverse this v ++ r)) (dynamic-all this rest)

formals-all :
    (this : Expr) (formals : Formals)
    → traverse_formals this formals ≡ traverse_all this (formals_list formals)
unfolding traverse_formals
formals-all this end_formals = refl
formals-all this (formal s pos def rest) = ap (◌++◌ (traverse this def)) (formals-all this rest)

-- The visitor comes to a node, and then to all below its children.
pub traverse-children :
    (parent e : Expr) → traverse parent e ≡ (e, parent) ∷ traverse_all e (children e)
unfolding traverse
traverse-children parent null = refl
traverse-children parent (expr_select p e path def) = rw path-all
traverse-children parent (expr_op_has_attr p e path) = rw path-all
traverse-children parent (expr_attrs p recursive attrs dynamic) =
    rw (traverse_all-append, attrs-all, dynamic-all)
traverse-children parent (expr_list p elems) = rw exprs-all
traverse-children parent (expr_lambda p arg true formals body) =
    rw (traverse_all-append, formals-all, append-nil)
traverse-children parent (expr_lambda p arg false formals body) = rw append-nil
traverse-children parent (expr_call p fun args) = rw (traverse_all-append, exprs-all, append-nil)
traverse-children parent (expr_let p q recursive attrs dynamic body) = rw append-nil
traverse-children parent (expr_with p prev attrs body) = rw append-nil
traverse-children parent (expr_if p c t e) = rw append-nil
traverse-children parent (expr_assert p c body) = rw append-nil
traverse-children parent (expr_op_not p e) = rw append-nil
traverse-children parent (expr_bin p op a b) = rw append-nil
traverse-children parent (expr_concat_strings p es) = rw exprs-all
traverse-children parent _ = refl
