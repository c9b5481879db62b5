-- ===== src/Ast/Prepared.antt =====
-- `prepareDefRef` on a tree.
use nixd.Prelude.{
  ℕ, zero, suc, ◌+◌, Bool, true, false, Option, none, some, List, [], ◌∷◌, ◌==◌, ==_iff,
  if◌then◌else◌, length, ◌≡◌, ◌≢◌, refl, ap, ◌∙◌, arith, All, Bool-cases, Option-cases, not_both,
  inl, inr,
}
use nixd.Ast.Expr.{Ptr, Var, Expr, ptr, null, expr_var}
use nixd.Ast.Env.{
  Found, found, not_found, out_of_range, no_fuel, is_env_created, climb, search_env_expr,
}
use nixd.Ast.Distinct.{addresses, IsDistinct}
use nixd.Ast.Rank.{
  In, IsRanked, rank-none, In-self, In-insert_all, get_parent_map-IsRanked, search_env_expr-total,
}
use nixd.Ast.Visit.{Edge, NodeMap, at, insert, insert_all, get_parent_map, traverse}
use nixd.Ast.References.{
  Definition, VarAt, Tables, definition_of, search_def, define, visit_var, and_then, prepare_from,
  no_tables, prepare_def_ref, find_definition, find_references,
}
use nixd.Ast.Inverse.{IsInverse, IsNew, prepare_from-IsInverse}

stopped_ne : not_found ≢ out_of_range
stopped_ne = λ h. cc

climb-In :
    (m : NodeMap) (fuel level : ℕ) (node : Expr)
    → IsRanked m
    → In m (ptr node)
    → climb fuel m level node ≢ out_of_range
unfolding climb
climb-In m fuel zero node r h = λ e. cc
climb-In m zero (suc level) node r h = λ e. cc
climb-In m (suc fuel) (suc level) node r h = elim (Option-cases (at m (ptr node))) [
  | inl e ↦ absurd (omega (arith, h, rank-none m (ptr node) e))
  | inr (q, e) ↦ elim (Bool-cases (ptr q == ptr node)) [
    | inl same ↦ rw (e, climb, same) stopped_ne
    | inr other ↦
        rw (e, climb, other)
          (climb-In m fuel (if is_env_created q node then level else suc level) q r (
            omega (
              arith,
              h,
              r (ptr node) q e
                  (λ k. not_both (ptr q == ptr node) ((==_iff (ptr q) (ptr node)).1 k) other),
            )))
  ]
]

IsAt : NodeMap → Edge → Type 0
IsAt m e = In m (ptr e.0)

insert_all-IsAt : (es : List Edge) (m : NodeMap) → All (IsAt (insert_all es m)) es
unfolding insert_all IsAt
insert_all-IsAt [] m = tt
insert_all-IsAt (e ∷ es) m =
    (In-insert_all es (insert e m) (ptr e.0) (In-self e m), insert_all-IsAt es (insert e m))

-- Nothing throws.
IsSome : {A : Type 0} → Option A → Type 0
IsSome {A} o = (a : A) × (o ≡ some a)

found-definition :
    (displ : ℕ) (f : Found) → f ≢ out_of_range → f ≢ no_fuel → IsSome (definition_of displ f)
unfolding IsSome
found-definition displ (found null) h k = (none, refl)
found-definition displ (found e) h k = (some (record { node = e; displ = displ }), refl)
found-definition displ not_found h k = (none, refl)
found-definition displ out_of_range h k = absurd (h refl)
found-definition displ no_fuel h k = absurd (k refl)

if_IsSome :
    {A : Type 0} (b : Bool) (x o : Option A) → IsSome x → IsSome o → IsSome (if b then x else o)
if_IsSome true x o h k = h
if_IsSome false x o h k = k

search_def-IsSome :
    (root : Expr) (p : Ptr) (v : Var)
    → In (get_parent_map root) p
    → IsSome (search_def (get_parent_map root) p v)
unfolding search_def search_env_expr IsSome
search_def-IsSome root p v h =
    let m = get_parent_map root in
    if_IsSome v.from_with (some none) (definition_of v.displ (search_env_expr p v m)) (none, refl)
      (found-definition v.displ (search_env_expr p v m)
        (climb-In m (length m) (v.level + 1) (expr_var p v) (get_parent_map-IsRanked root) h)
        (search_env_expr-total root p v))

define-IsSome :
    (v : VarAt) (t : Tables) (o : Option (Option Definition)) → IsSome o → IsSome (define v t o)
unfolding IsSome
define-IsSome v t none (d, h) = ground arith
define-IsSome v t (some none) h = (t, refl)
define-IsSome v t (some (some d)) h = (_, refl)

visit_var-IsSome :
    (root node parent : Expr) (t : Tables)
    → IsAt (get_parent_map root) (node, parent)
    → IsSome (visit_var (get_parent_map root) node t)
unfolding IsAt IsSome
visit_var-IsSome root (expr_var p v) parent t h =
    define-IsSome (p, v) t (search_def (get_parent_map root) p v) (search_def-IsSome root p v h)
visit_var-IsSome root node parent t h = (t, refl)

prepare_from-IsSome :
    (root : Expr) (es : List Edge) (t : Tables)
    → All (IsAt (get_parent_map root)) es
    → IsSome (prepare_from (get_parent_map root) es t)
unfolding prepare_from IsSome
prepare_from-IsSome root [] t h = (t, refl)
prepare_from-IsSome root ((node, parent) ∷ es) t (h, hs) =
    let (s, e) = visit_var-IsSome root node parent t h in
    let (r, k) = prepare_from-IsSome root es s hs in
    (r, ap (and_then (prepare_from (get_parent_map root) es)) e ∙ k)

none_before : (ks : List Ptr) → All (IsNew no_tables) ks
unfolding find_definition
none_before [] = tt
none_before (k ∷ ks) = (refl, none_before ks)

-- In a tree whose nodes have different addresses `prepareDefRef` does not throw, and the tables that
-- it makes are inverse: the definition of a variable is a given one just where the variable is among
-- the references to it.
pub prepare_def_ref-IsInverse :
    (root : Expr)
    → IsDistinct (addresses (traverse root root))
    → (t : Tables) × (prepare_def_ref root ≡ some t) × IsInverse t
unfolding prepare_def_ref get_parent_map IsSome find_references find_definition
prepare_def_ref-IsInverse root d =
    let es = traverse root root in
    let (t, e) = prepare_from-IsSome root es no_tables (insert_all-IsAt es []) in
    (
      t,
      e,
      prepare_from-IsInverse (get_parent_map root) es no_tables t (λ p f. (λ h. h, λ h. h)) d
          (none_before (addresses es)) e,
    )
