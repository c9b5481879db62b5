-- ===== src/Ast/Bind.antt =====
-- nixd/lib/Expr/Nodes.cpp: `bindVarsStatic` of every node. It writes into the tree, so here it gives
-- the tree that it leaves, or the exception that it throws.
-- A static environment (`nix::StaticEnv`) is a chain of frames, the innermost first. Its `find` and
-- `sort` belong to Nix and are parameters, with the laws that are used of them.
use nixd.Prelude.{
  ℕ, zero, suc, ◌+◌, Bool, true, false, Option, none, some, List, [], ◌∷◌, ◌≡◌, All, if◌then◌else◌,
}
use nixd.Ast.Expr.{
  Symbol, Var, Expr, Exprs, AttrPath, Attrs, DynamicAttrs, Formals, null, expr_error, expr_int,
  expr_float, expr_string, expr_path, expr_pos, expr_var, expr_select, expr_op_has_attr, expr_attrs,
  expr_list, expr_lambda, expr_call, expr_let, expr_with, expr_if, expr_assert, expr_op_not,
  expr_bin, expr_concat_strings, end_exprs, more_exprs, end_path, static_name, dynamic_name,
  end_attrs, attr_def, end_dynamic, dynamic_attr, end_formals, formal,
}

abbrev pub Vars : Type 0
Vars = List (Symbol × ℕ)

pub record Frame : Type 0 where
  pub is_with : Bool
  pub vars : Vars

abbrev pub StaticEnv : Type 0
StaticEnv = List Frame

-- `StaticEnv::find` gives the displacement of an entry with that name, and `StaticEnv::sort` makes
-- no entry that was not there.
pub record EnvOps : Type 1 where
  pub find : Vars → Symbol → Option ℕ
  pub sort : Vars → Vars
  pub find_entry :
      (P : Symbol × ℕ → Type 0) (vars : Vars) (name : Symbol) (displ : ℕ)
      → All P vars
      → find vars name ≡ some displ
      → P (name, displ)
  pub sort_entries : (P : Symbol × ℕ → Type 0) (vars : Vars) → All P vars → All P (sort vars)

-- `UndefinedVarError`, and, of the model alone, a call through a null pointer.
pub data Error : Type 0 where
  undefined_var : Symbol → Error
  null_call : Error

pub data Result (A : Type 0) : Type 0 where
  ok : A → Result A
  err : Error → Result A

infixl 5 ◌>>=◌
abbrev pub ◌>>=◌ : {A B : Type 0} → Result A → (A → Result B) → Result B
ok a >>= f = f a
err e >>= f = err e

-- The names of a set, with displacements from `displ` on.
unfoldable pub attr_vars : Attrs → ℕ → Vars
attr_vars end_attrs displ = []
attr_vars (attr_def s inherited e pos d rest) displ = (s, displ) ∷ attr_vars rest (displ + 1)

-- `I.second.displ = Displ++`.
unfoldable pub number_attrs : Attrs → ℕ → Attrs
number_attrs end_attrs displ = end_attrs
number_attrs (attr_def s inherited e pos d rest) displ =
    attr_def s inherited e pos displ (number_attrs rest (displ + 1))

unfoldable pub formal_vars : Formals → ℕ → Vars
formal_vars end_formals displ = []
formal_vars (formal s pos def rest) displ = (s, displ) ∷ formal_vars rest (displ + 1)

-- The loop of `ExprWith`: the distance to the next `with` outside, from 1, or 0.
unfoldable pub prev_with : StaticEnv → ℕ → ℕ
prev_with [] level = 0
prev_with (f ∷ env) level = if f.is_with then level else prev_with env (level + 1)

-- The `if (def)` of a selection's and of a formal's default.
abbrev pub unless_null : Expr → Result Expr → Result Expr
unless_null null bound = ok null
unless_null _ bound = bound

-- `if (!WithLevel) WithLevel = Level`.
abbrev pub nearest : Option ℕ → ℕ → Option ℕ
nearest none level = some level
nearest (some w) level = some w

-- The branch on what a frame holds: an entry ends the loop.
abbrev pub at_entry : Option ℕ → ℕ → Var → Result Var → Result Var
at_entry none level v outside = outside
at_entry (some displ) level v outside =
    ok (record v { from_with = false; level = level; displ = displ })

module _ (ops : EnvOps) where
  -- The loop of `ExprVar` over the frames; `with_level` is the first `with` that was passed.
  unfoldable pub bind_var : StaticEnv → Symbol → ℕ → Option ℕ → Var → Result Var
  bind_var [] name level none v = err (undefined_var name)
  bind_var [] name level (some w) v = ok (record v { from_with = true; level = w })
  bind_var (f ∷ env) name level with_level v =
      let outside =
        bind_var env name (level + 1) (if f.is_with then nearest with_level level else with_level)
          v in
      if f.is_with then outside else at_entry (ops.find f.vars name) level v outside

  -- The frames of a recursive set or a `let`, and of a lambda.
  abbrev pub attrs_frame : Attrs → Frame
  attrs_frame attrs = record { is_with = false; vars = attr_vars attrs 0 }

  abbrev pub lambda_vars : Symbol → Bool → Formals → Vars
  lambda_vars zero true formals = ops.sort (formal_vars formals 0)
  lambda_vars (suc arg) true formals = ops.sort ((suc arg, 0) ∷ formal_vars formals 1)
  lambda_vars zero false formals = []
  lambda_vars (suc arg) false formals = (suc arg, 0) ∷ []

  abbrev pub lambda_frame : Symbol → Bool → Formals → Frame
  lambda_frame arg has formals = record { is_with = false; vars = lambda_vars arg has formals }

  abbrev pub with_frame : Frame
  with_frame = record { is_with = true; vars = [] }

  unfoldable mutual
    pub bind_vars : StaticEnv → Expr → Result Expr
    bind_vars env null = err null_call
    bind_vars env (expr_error p) = ok (expr_error p)
    bind_vars env (expr_int p) = ok (expr_int p)
    bind_vars env (expr_float p) = ok (expr_float p)
    bind_vars env (expr_string p) = ok (expr_string p)
    bind_vars env (expr_path p) = ok (expr_path p)
    bind_vars env (expr_pos p) = ok (expr_pos p)
    bind_vars env (expr_var p v) = do w ← bind_var env v.name 0 none v; ok (expr_var p w)
    bind_vars env (expr_select p e path def) = do
      e' ← bind_vars env e
      def' ← unless_null def (bind_vars env def)
      path' ← bind_path env path
      ok (expr_select p e' path' def')
    bind_vars env (expr_op_has_attr p e path) = do
      e' ← bind_vars env e
      path' ← bind_path env path
      ok (expr_op_has_attr p e' path')
    bind_vars env (expr_attrs p true attrs dynamic) = do
      attrs' ← bind_attrs env (attrs_frame attrs ∷ env) attrs
      dynamic' ← bind_dynamic (attrs_frame attrs ∷ env) dynamic
      ok (expr_attrs p true (number_attrs attrs' 0) dynamic')
    bind_vars env (expr_attrs p false attrs dynamic) = do
      attrs' ← bind_attrs env env attrs
      dynamic' ← bind_dynamic env dynamic
      ok (expr_attrs p false attrs' dynamic')
    bind_vars env (expr_list p elems) = do elems' ← bind_exprs env elems; ok (expr_list p elems')
    bind_vars env (expr_lambda p arg has formals body) = do
      formals' ← bind_formals has (lambda_frame arg has formals ∷ env) formals
      body' ← bind_vars (lambda_frame arg has formals ∷ env) body
      ok (expr_lambda p arg has formals' body')
    bind_vars env (expr_call p fun args) = do
      fun' ← bind_vars env fun
      args' ← bind_exprs env args
      ok (expr_call p fun' args')
    bind_vars env (expr_let p q recursive attrs dynamic body) = do
      attrs' ← bind_attrs env (attrs_frame attrs ∷ env) attrs
      body' ← bind_vars (attrs_frame attrs ∷ env) body
      ok (expr_let p q recursive (number_attrs attrs' 0) dynamic body')
    bind_vars env (expr_with p prev attrs body) = do
      attrs' ← bind_vars env attrs
      body' ← bind_vars (with_frame ∷ env) body
      ok (expr_with p (prev_with env 1) attrs' body')
    bind_vars env (expr_if p c t e) = do
      c' ← bind_vars env c
      t' ← bind_vars env t
      e' ← bind_vars env e
      ok (expr_if p c' t' e')
    bind_vars env (expr_assert p c body) = do
      c' ← bind_vars env c
      body' ← bind_vars env body
      ok (expr_assert p c' body')
    bind_vars env (expr_op_not p e) = do e' ← bind_vars env e; ok (expr_op_not p e')
    bind_vars env (expr_bin p op a b) = do
      a' ← bind_vars env a
      b' ← bind_vars env b
      ok (expr_bin p op a' b')
    bind_vars env (expr_concat_strings p es) = do
      es' ← bind_exprs env es
      ok (expr_concat_strings p es')

    pub bind_exprs : StaticEnv → Exprs → Result Exprs
    bind_exprs env end_exprs = ok end_exprs
    bind_exprs env (more_exprs e es) = do
      e' ← bind_vars env e
      es' ← bind_exprs env es
      ok (more_exprs e' es')

    pub bind_path : StaticEnv → AttrPath → Result AttrPath
    bind_path env end_path = ok end_path
    bind_path env (static_name s path) = do path' ← bind_path env path; ok (static_name s path')
    bind_path env (dynamic_name e path) = do
      e' ← bind_vars env e
      path' ← bind_path env path
      ok (dynamic_name e' path')

    -- An inherited attribute is bound in the environment outside.
    pub bind_attrs : StaticEnv → StaticEnv → Attrs → Result Attrs
    bind_attrs outer inner end_attrs = ok end_attrs
    bind_attrs outer inner (attr_def s inherited e pos displ rest) = do
      e' ← bind_vars (if inherited then outer else inner) e
      rest' ← bind_attrs outer inner rest
      ok (attr_def s inherited e' pos displ rest')

    pub bind_dynamic : StaticEnv → DynamicAttrs → Result DynamicAttrs
    bind_dynamic env end_dynamic = ok end_dynamic
    bind_dynamic env (dynamic_attr n v rest) = do
      n' ← bind_vars env n
      v' ← bind_vars env v
      rest' ← bind_dynamic env rest
      ok (dynamic_attr n' v' rest')

    -- The flag is `hasFormals()`.
    pub bind_formals : Bool → StaticEnv → Formals → Result Formals
    bind_formals false env end_formals = ok end_formals
    bind_formals true env end_formals = ok end_formals
    bind_formals false env (formal s pos def rest) = ok (formal s pos def rest)
    bind_formals true env (formal s pos def rest) = do
      def' ← unless_null def (bind_vars env def)
      rest' ← bind_formals true env rest
      ok (formal s pos def' rest')
