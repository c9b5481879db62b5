-- ===== src/Ast/Resolve.antt =====
-- The search for a variable's definition in a tree that `bindVarsStatic` has gone through.
use nixd.Prelude.{ℕ, ◌+◌, false, List, [], ◌∷◌, length, All, ◌≡◌, ◌≢◌, refl, ◌∙◌, arith}
use nixd.Ast.Bind.{EnvOps, ok, with_frame, bind_vars}
use nixd.Ast.Distinct.{addresses, IsDistinct, get_parent_map-Linked}
use nixd.Ast.Env.{found, no_fuel, climb, search_env_expr}
use nixd.Ast.Expr.{Ptr, Var, Expr, expr_error, expr_var}
use nixd.Ast.Rank.{search_env_expr-total, climb-agree}
use nixd.Ast.Scope.Bound.{bind_vars-Good}
use nixd.Ast.Scope.Good.{EdgeOk, VarLeads}
use nixd.Ast.Scope.{Names, top}
use nixd.Ast.Visit.{Edge, traverse, get_parent_map}

-- The node that the search finds for a variable that is not from a `with` defines the variable's
-- name at the variable's displacement.
abbrev pub VarResolves : Expr → Edge → Type 0
VarResolves root (expr_var p v, parent) =
    v.from_with ≡ false
    → (q : Expr) × (search_env_expr p v (get_parent_map root) ≡ found q) × Names q v.name v.displ
VarResolves root (expr_error p, parent) = Unit
VarResolves root _ = Unit

found_ne : {r q : _} → r ≡ found q → r ≢ no_fuel
found_ne h k = cc

search_of_climb :
    (root : Expr) (fuel : ℕ) (p : Ptr) (v : Var) (q : Expr)
    → climb fuel (get_parent_map root) (v.level + 1) (expr_var p v) ≡ found q
    → search_env_expr p v (get_parent_map root) ≡ found q
unfolding search_env_expr
search_of_climb root fuel p v q h =
    climb-agree (get_parent_map root) (length (get_parent_map root)) fuel (v.level + 1)
      (expr_var p v) (search_env_expr-total root p v) (found_ne h)
    ∙ h

resolves-edge :
    (root : Expr) (fuel : ℕ) (e : Edge) → VarLeads fuel (get_parent_map root) e → VarResolves root e
resolves-edge root fuel (expr_var p v, parent) h =
    λ w. let (q, c, names) = h w in (q, search_of_climb root fuel p v q c, names)
resolves-edge root fuel (expr_error p, parent) h = tt
resolves-edge root fuel _ h = tt

resolves-All :
    (root : Expr) (fuel : ℕ) (es : List Edge)
    → All (VarLeads fuel (get_parent_map root)) es
    → All (VarResolves root) es
resolves-All root fuel [] h = tt
resolves-All root fuel (e ∷ es) h = (resolves-edge root fuel e h.0, resolves-All root fuel es h.1)

-- After `bindVarsStatic` with the frame of a `with` outside, in a tree whose nodes have different
-- addresses, whose recursive sets and `let`s inherit nothing from outside, and whose `let`s have sets
-- that are not recursive and without dynamic attributes, the search from each variable that is not from a `with` ends at a node that defines the variable's name, at the
-- displacement that the variable was given.
pub bind_vars-VarResolves :
    (ops : EnvOps) (root bound : Expr)
    → bind_vars ops (with_frame ops ∷ []) root ≡ ok bound
    → IsDistinct (addresses (traverse bound bound))
    → All EdgeOk (traverse bound bound)
    → All (VarResolves bound) (traverse bound bound)
bind_vars-VarResolves ops root bound h d okay =
    let fuel = length (traverse bound bound) in
    resolves-All bound fuel (traverse bound bound) (
      bind_vars-Good ops (with_frame ops ∷ []) root bound h (get_parent_map bound) fuel 1 bound
        (top refl) (omega arith) (get_parent_map-Linked bound d) okay)
