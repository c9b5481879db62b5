-- ===== src/Ast/References/Tests.antt =====
-- The expression `x: with x; [ x y ]`: a parameter, a reference to it, and a variable of the `with`.
use nixd.Prelude.{ℕ, ◌+◌, true, false, none, some, List, [], ◌∷◌, codes, ◌≡◌, refl, arith}
use nixd.Ast.Expr.{
  Var, Expr, expr_var, expr_list, expr_lambda, expr_with, more_exprs, end_exprs, formal,
  end_formals, null,
}
use nixd.Ast.Env.{search_env_expr, climb, found, displ_at, lambda_at, formal_at, is_env_created}
use nixd.Ast.Distinct.{addresses, IsDistinct}
use nixd.Ast.Visit.{
  at, insert, insert_all, get_parent_map, traverse, traverse_exprs, traverse_formals,
}
use nixd.Ast.Lookup.{ParseData}
use nixd.Ast.References.{
  Tables, prepare_def_ref, prepare_from, search_def, put_definition, add_reference, find_definition,
  rename_var,
}
use nixd.Ast.Inverse.{IsInverse}
use nixd.Ast.Prepared.{prepare_def_ref-IsInverse}
use nixd.Ast.Symbols.{collect_symbols}
use nixd.Ast.Offered.{Offers, IsCollected, collect_symbols-total, collect_symbols-search}

abbrev x_var : Var
x_var = record { name = 7; from_with = false; level = 1; displ = 0 }

abbrev y_var : Var
y_var = record { name = 8; from_with = true; level = 0; displ = 0 }

-- `{ x }: with x; [ x y ]`
abbrev tree : Expr
tree = expr_lambda 1 0 true (formal 7 1 null end_formals) (
    expr_with 2 0 (expr_var 3 (record { name = 7; from_with = false; level = 0; displ = 0 }))
      (expr_list 4 (more_exprs (expr_var 5 x_var) (more_exprs (expr_var 6 y_var) end_exprs))))

tree-IsDistinct : IsDistinct (addresses (traverse tree tree))
unfolding traverse traverse_exprs traverse_formals
tree-IsDistinct = ground arith

prepare_def_ref-IsInverse_example : (t : Tables) × (prepare_def_ref tree ≡ some t) × IsInverse t
prepare_def_ref-IsInverse_example = prepare_def_ref-IsInverse tree tree-IsDistinct

abbrev prepared : Tables
prepared = record {
  definitions =
      (3, record { node = tree; displ = 0 }) ∷ (5, record { node = tree; displ = 0 }) ∷ [];
  references =
      (
        record { node = tree; displ = 0 },
        (3, record { name = 7; from_with = false; level = 0; displ = 0 }) ∷ (5, x_var) ∷ [],
      )
      ∷ [];
}

prepare_def_ref_run : prepare_def_ref tree ≡ some prepared
unfolding prepare_def_ref prepare_from search_def put_definition add_reference get_parent_map
    insert_all insert traverse traverse_exprs traverse_formals search_env_expr climb at
    is_env_created
prepare_def_ref_run = refl

-- To rename a variable of a `with` throws: it has no definition.
abbrev parsed : ParseData
parsed = record {
  locations = λ p. some p;
  ends = λ b. some (b + 1);
  positions = λ i. record { line = 1; column = i };
}

rename-run : rename_var parsed prepared 6 (codes "z") ≡ none
unfolding rename_var find_definition
rename-run = refl

x_search : search_env_expr 5 x_var (get_parent_map tree) ≡ found tree
unfolding search_env_expr climb get_parent_map insert_all traverse insert at is_env_created
x_search = refl

x_name : displ_at tree 0 ≡ some (7, 1)
unfolding displ_at lambda_at formal_at
x_name = refl

-- At the variable the parameter is offered.
collect_symbols-total_example : IsCollected (collect_symbols (get_parent_map tree) tree)
collect_symbols-total_example = collect_symbols-total tree tree

collect_symbols-search_example :
    (names : List ℕ) × (collect_symbols (get_parent_map tree) (expr_var 5 x_var) ≡ some names)
    × Offers 7 names
collect_symbols-search_example = collect_symbols-search tree 5 x_var tree 0 7 1 x_search x_name
