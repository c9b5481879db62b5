-- ===== src/Ast/Tests.antt =====
-- Runs of the binding and of the search, with an environment that looks its names up in order.
use nixd.Prelude.{
  ℕ, true, false, Option, none, some, [], ◌∷◌, All, ◌==◌, if◌then◌else◌, ◌≡◌, ◌≢◌, refl, arith,
  Bool-cases, inl, inr, ==_iff,
}
use nixd.Ast.Bind.{
  Vars, EnvOps, ok, attr_vars, number_attrs, formal_vars, prev_with, bind_var, with_frame,
  bind_vars,
}
use nixd.Ast.Distinct.{addresses, IsDistinct, get_parent_map-Linked}
use nixd.Ast.Env.{is_env_created, found, no_fuel, climb, search_env_expr}
use nixd.Ast.Expr.{
  Symbol, Var, Expr, expr_int, expr_var, expr_attrs, expr_let, expr_lambda, end_attrs, attr_def,
  end_dynamic, end_formals, children,
}
use nixd.Ast.Induction.{traverse_all}
use nixd.Ast.Rank.{search_env_expr-total}
use nixd.Ast.Resolve.{VarResolves, bind_vars-VarResolves}
use nixd.Ast.Scope.Good.{Linked}
use nixd.Ast.Visit.{at, insert, insert_all, get_parent_map, traverse}

abbrev find_in_order : Vars → Symbol → Option ℕ
find_in_order [] name = none
find_in_order ((s, d) ∷ vars) name = if s == name then some d else find_in_order vars name

in_order_entry :
    (P : Symbol × ℕ → Type 0) (vars : Vars) (name : Symbol) (displ : ℕ)
    → All P vars
    → find_in_order vars name ≡ some displ
    → P (name, displ)
in_order_entry P [] name displ a h = cc
in_order_entry P ((s, d) ∷ vars) name displ a h = elim (Bool-cases (s == name)) [
  | inl e ↦
      let same : s ≡ name = (==_iff s name).0 e in
      let here : d ≡ displ = same_displ (rw e at h) in rw (← same, ← here) a.0
  | inr e ↦ in_order_entry P vars name displ a.1 (rw e at h)
]
  where
    same_displ : {x y : ℕ} → some x ≡ some y → x ≡ y
    same_displ h = cc

abbrev in_order : EnvOps
in_order = record {
  find = find_in_order;
  sort = λ vars. vars;
  find_entry = in_order_entry;
  sort_entries = λ P vars a. a;
}

-- `let a = 1; in b: a`
abbrev unbound : Var
unbound = record { name = 5; from_with = true; level = 0; displ = 0 }

abbrev program : Expr
program =
    expr_let 1 2 false (attr_def 5 false (expr_int 3) 40 9 end_attrs) end_dynamic
      (expr_lambda 4 6 false end_formals (expr_var 7 unbound))

abbrev use_of_a : Var
use_of_a = record { name = 5; from_with = false; level = 1; displ = 0 }

abbrev bound : Expr
bound =
    expr_let 1 2 false (attr_def 5 false (expr_int 3) 40 0 end_attrs) end_dynamic
      (expr_lambda 4 6 false end_formals (expr_var 7 use_of_a))

bind_run : bind_vars in_order (with_frame in_order ∷ []) program ≡ ok bound
unfolding bind_vars bind_var number_attrs attr_vars formal_vars prev_with
bind_run = refl

IsDistinct-run : IsDistinct (addresses (traverse bound bound))
unfolding traverse
IsDistinct-run = omega arith

bind_vars-VarResolves_example : All (VarResolves bound) (traverse bound bound)
bind_vars-VarResolves_example =
    bind_vars-VarResolves in_order program bound bind_run IsDistinct-run
      (unfold traverse in (((refl, refl, (refl, tt)), (tt, (tt, (tt, (tt, tt)))))))

search_env_expr-total_example : search_env_expr 7 use_of_a (get_parent_map bound) ≢ no_fuel
search_env_expr-total_example = search_env_expr-total bound 7 use_of_a

get_parent_map-Linked_example :
    All (Linked (get_parent_map bound)) (traverse_all bound (children bound))
get_parent_map-Linked_example = get_parent_map-Linked bound IsDistinct-run

search_run : search_env_expr 7 use_of_a (get_parent_map bound) ≡ found bound
unfolding search_env_expr climb at get_parent_map insert_all insert traverse is_env_created
search_run = refl

-- `let a = 1; in rec { inherit a; }`: the variable of the `inherit` is bound to the `let`, one level
-- out of the set's own, and the search stops at the set.
abbrev inherits : Expr
inherits =
    expr_let 1 2 false (attr_def 5 false (expr_int 3) 40 9 end_attrs) end_dynamic
      (expr_attrs 4 true (attr_def 5 true (expr_var 7 unbound) 41 0 end_attrs) end_dynamic)

abbrev inherited_a : Var
inherited_a = record { name = 5; from_with = false; level = 0; displ = 0 }

abbrev inherits_set : Expr
inherits_set =
    expr_attrs 4 true (attr_def 5 true (expr_var 7 inherited_a) 41 0 end_attrs) end_dynamic

abbrev inherits_bound : Expr
inherits_bound =
    expr_let 1 2 false (attr_def 5 false (expr_int 3) 40 0 end_attrs) end_dynamic inherits_set

bind-inherit : bind_vars in_order (with_frame in_order ∷ []) inherits ≡ ok inherits_bound
unfolding bind_vars bind_var number_attrs attr_vars formal_vars prev_with
bind-inherit = refl

search-inherit : search_env_expr 7 inherited_a (get_parent_map inherits_bound) ≡ found inherits_set
unfolding search_env_expr climb at get_parent_map insert_all insert traverse is_env_created
search-inherit = refl
