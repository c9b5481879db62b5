-- ===== src/Ast/Scope/Good.antt =====
-- Trees in which every variable that is not from a `with` leads to its definition, put together
-- from their children.
use nixd.Prelude.{
  ℕ, suc, ◌+◌, ◌≤◌, Bool, true, false, some, List, [], ◌∷◌, length, length-append, All, All-append,
  All-append_left, All-append_right, ◌≡◌, ◌≢◌, ◌⊎◌, inl, inr, refl, sym, ap, arith, subst,
  Bool-cases,
}
use nixd.Ast.Bind.{Frame, StaticEnv, EnvOps}
use nixd.Ast.Env.{is_env_created, found, climb}
use nixd.Ast.Expr.{
  Var, Expr, Attrs, ptr, null, expr_error, expr_var, expr_attrs, expr_let, expr_with, end_attrs,
  attr_def, end_dynamic, children,
}
use nixd.Ast.Induction.{traverse-children, traverse_all}
use nixd.Ast.Scope.{Names, Binds, Scope, same, inner, Entry, climb-Entry}
use nixd.Ast.Visit.{Edge, NodeMap, at, traverse}

abbrev pub is_null : Expr → Bool
is_null null = true
is_null (expr_error p) = false
is_null _ = false

pub null_of_is_null : (e : Expr) → is_null e ≡ true → e ≡ null
null_of_is_null null h = refl
null_of_is_null (expr_error p) h = cc
null_of_is_null _ h = cc

-- The variable's climb ends at a node that defines its name at its displacement.
abbrev pub Leads : ℕ → NodeMap → Expr → Var → Type 0
Leads fuel m e v = (q : Expr) × (climb fuel m (v.level + 1) e ≡ found q) × Names q v.name v.displ

abbrev pub VarLeads : ℕ → NodeMap → Edge → Type 0
VarLeads fuel m (expr_var p v, parent) = v.from_with ≡ false → Leads fuel m (expr_var p v) v
VarLeads fuel m (null, parent) = Unit
VarLeads fuel m _ = Unit

-- The map has the edge, and the child is not its own parent.
abbrev pub Linked : NodeMap → Edge → Type 0
Linked m (c, p) = is_null c ≡ false → (at m (ptr c) ≡ some p) × (ptr p ≢ ptr c)

-- No attribute is inherited from outside.
abbrev pub Plain : Attrs → Type 0
Plain end_attrs = Unit
Plain (attr_def s inherited e pos displ rest) = (inherited ≡ false) × Plain rest

-- The parts of a `with` have different addresses; a recursive set or a `let` has no `inherit` from
-- outside, and a `let` binds a set that is not recursive and has no dynamic attribute.
abbrev pub NodeOk : Expr → Type 0
NodeOk (expr_attrs p true attrs dynamic) = Plain attrs
NodeOk (expr_let p q recursive attrs dynamic body) =
    (recursive ≡ false) × (dynamic ≡ end_dynamic) × Plain attrs
NodeOk (expr_with p prev attrs body) = ptr body ≢ ptr attrs
NodeOk _ = Unit

abbrev pub EdgeOk : Edge → Type 0
EdgeOk (c, p) = NodeOk c

-- Wherever the environment belongs to the tree's root, each variable of the tree leads to its
-- definition. The fuel exceeds the nodes above and those of the tree together.
abbrev pub Good : StaticEnv → Expr → Type 0
Good env e =
    (m : NodeMap) (fuel n : ℕ) (parent : Expr)
    → Scope m n env e
    → n + length (traverse parent e) ≤ fuel + 1
    → All (Linked m) (traverse_all e (children e))
    → All EdgeOk (traverse parent e)
    → All (VarLeads fuel m) (traverse parent e)

-- A child of `e` is good in the environment that it has below `e`.
abbrev pub ChildGood : StaticEnv → Expr → Expr → Type 0
ChildGood env e c =
    is_null c ≡ false
    → ((is_env_created e c ≡ false) × Good env c)
      ⊎ ((f : Frame) × (is_env_created e c ≡ true) × Binds e f × Good (f ∷ env) c)

module _ (m : NodeMap) (fuel : ℕ) where
  leads-null : (this c : Expr) → is_null c ≡ true → All (VarLeads fuel m) (traverse this c)
  leads-null this c h = rw (null_of_is_null c h, traverse-children this null) (tt, tt)

  leads-child :
      (n : ℕ) (env : StaticEnv) (this c : Expr)
      → Scope m n env this
      → is_null c ≡ false
      → ((is_env_created this c ≡ false) × Good env c)
        ⊎ ((f : Frame) × (is_env_created this c ≡ true) × Binds this f × Good (f ∷ env) c)
      → suc n + length (traverse this c) ≤ fuel + 1
      → All (Linked m) (traverse this c)
      → All EdgeOk (traverse this c)
      → All (VarLeads fuel m) (traverse this c)
  leads-child n env this c s z g b l ok =
      let l' : All (Linked m) ((c, this) ∷ traverse_all c (children c)) =
        subst (All (Linked m)) (traverse-children this c) l in
      let (link, loop) = l'.0 z in
      elim g [
        | inl (k, good) ↦ good m fuel (suc n) this (same s link loop k) b l'.1 ok
        | inr (f, k, i, good) ↦ good m fuel (suc n) this (inner s link loop k i) b l'.1 ok
      ]

  pub leads-All :
      (n : ℕ) (env : StaticEnv) (this : Expr) (cs : List Expr)
      → Scope m n env this
      → All (ChildGood env this) cs
      → suc n + length (traverse_all this cs) ≤ fuel + 1
      → All (Linked m) (traverse_all this cs)
      → All EdgeOk (traverse_all this cs)
      → All (VarLeads fuel m) (traverse_all this cs)
  leads-All n env this [] s g b l ok = tt
  leads-All n env this (c ∷ cs) s g b l ok =
      let size = length-append (traverse this c) (traverse_all this cs) in
      All-append (VarLeads fuel m) (traverse this c) (traverse_all this cs)
        (elim (Bool-cases (is_null c)) [
          | inl z ↦ leads-null this c z
          | inr z ↦
              leads-child n env this c s z (g.0 z) (omega arith)
                (All-append_left (Linked m) (traverse this c) (traverse_all this cs) l)
                (All-append_left EdgeOk (traverse this c) (traverse_all this cs) ok)
        ])
        (leads-All n env this cs s g.1 (omega arith)
          (All-append_right (Linked m) (traverse this c) (traverse_all this cs) l)
          (All-append_right EdgeOk (traverse this c) (traverse_all this cs) ok))

-- A node that is no variable is good if its children are.
pub Good-children :
    (env : StaticEnv) (e : Expr)
    → ((fuel : ℕ) (m : NodeMap) (parent : Expr) → VarLeads fuel m (e, parent))
    → (NodeOk e → All (ChildGood env e) (children e))
    → Good env e
Good-children env e v g m fuel n parent s b l ok =
    let unfold_ok : All EdgeOk ((e, parent) ∷ traverse_all e (children e)) =
      subst (All EdgeOk) (traverse-children parent e) ok in
    let size = ap length (traverse-children parent e) in
    subst (All (VarLeads fuel m)) (sym (traverse-children parent e)) (
      v fuel m parent,
      leads-All m fuel n env e (children e) s (g unfold_ok.0) (omega arith) l unfold_ok.1,
    )

-- A variable is good if it has an entry where it is not from a `with`.
pub Good-var :
    (ops : EnvOps) (env : StaticEnv) (p : ℕ) (v : Var)
    → (v.from_with ≡ false → Entry ops env v.level v.name v.displ)
    → Good env (expr_var p v)
Good-var ops env p v h m fuel n parent s b l ok =
    let size = ap length (traverse-children parent (expr_var p v)) in
    let next : v.level + 1 ≡ suc v.level = omega arith in
    subst (All (VarLeads fuel m)) (sym (traverse-children parent (expr_var p v)))
      ((λ w. rw next (climb-Entry ops v.level fuel v.name v.displ s (h w) (omega arith))), tt)
