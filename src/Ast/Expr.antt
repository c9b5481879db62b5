-- ===== src/Ast/Expr.antt =====
-- The nodes of nixd/include/nixd/Expr/Nodes.inc with the fields that nixd reads, and the children
-- of each in the order of nixd/include/nixd/Expr/Traverse.inc.
-- A node carries its address; `null` is the null pointer, whose address is 0. Symbols, positions
-- and displacements are numbers; symbol 0 is the unset symbol, position 0 is `noPos`.
use nixd.Prelude.{ℕ, Bool, List, [], ◌∷◌, ◌++◌}

abbrev pub Ptr : Type 0
Ptr = ℕ

abbrev pub Symbol : Type 0
Symbol = ℕ

abbrev pub PosIdx : Type 0
PosIdx = ℕ

-- `nix::ExprVar`: what `bindVarsStatic` reads and writes of it.
pub record Var : Type 0 where
  pub name : Symbol
  pub from_with : Bool
  pub level : ℕ
  pub displ : ℕ

-- The operators of nixd/include/nixd/Expr/BinOps.inc.
pub data BinOp : Type 0 where
  op_eq op_neq op_and op_or op_impl op_update op_concat_lists : BinOp

mutual
  pub data Expr : Type 0 where
    null : Expr
    expr_error expr_int expr_float expr_string expr_path expr_pos : Ptr → Expr
    expr_var : Ptr → Var → Expr
    -- `e`, `attrPath`, `def`
    expr_select : Ptr → Expr → AttrPath → Expr → Expr
    expr_op_has_attr : Ptr → Expr → AttrPath → Expr
    -- `recursive`, `attrs`, `dynamicAttrs`
    expr_attrs : Ptr → Bool → Attrs → DynamicAttrs → Expr
    expr_list : Ptr → Exprs → Expr
    -- `arg`, `hasFormals()`, `formals`, `body`
    expr_lambda : Ptr → Symbol → Bool → Formals → Expr → Expr
    -- `fun`, `args`
    expr_call : Ptr → Expr → Exprs → Expr
    -- the `ExprAttrs` that `attrs` points to, by its address and fields, and `body`
    expr_let : Ptr → Ptr → Bool → Attrs → DynamicAttrs → Expr → Expr
    -- `prevWith`, `attrs`, `body`
    expr_with : Ptr → ℕ → Expr → Expr → Expr
    expr_if : Ptr → Expr → Expr → Expr → Expr
    expr_assert : Ptr → Expr → Expr → Expr
    expr_op_not : Ptr → Expr → Expr
    expr_bin : Ptr → BinOp → Expr → Expr → Expr
    expr_concat_strings : Ptr → Exprs → Expr

  pub data Exprs : Type 0 where
    end_exprs : Exprs
    more_exprs : Expr → Exprs → Exprs

  -- Names of an attribute path: a symbol, or an expression where there is none.
  pub data AttrPath : Type 0 where
    end_path : AttrPath
    static_name : Symbol → AttrPath → AttrPath
    dynamic_name : Expr → AttrPath → AttrPath

  -- `AttrDefs` in the order of the map: the symbol, and `inherited`, `e`, `pos`, `displ`.
  pub data Attrs : Type 0 where
    end_attrs : Attrs
    attr_def : Symbol → Bool → Expr → PosIdx → ℕ → Attrs → Attrs

  pub data DynamicAttrs : Type 0 where
    end_dynamic : DynamicAttrs
    dynamic_attr : Expr → Expr → DynamicAttrs → DynamicAttrs

  -- `name`, `pos`, `def`
  pub data Formals : Type 0 where
    end_formals : Formals
    formal : Symbol → PosIdx → Expr → Formals → Formals

abbrev pub ptr : Expr → Ptr
ptr null = 0
ptr (expr_error p) = p
ptr (expr_int p) = p
ptr (expr_float p) = p
ptr (expr_string p) = p
ptr (expr_path p) = p
ptr (expr_pos p) = p
ptr (expr_var p v) = p
ptr (expr_select p e path def) = p
ptr (expr_op_has_attr p e path) = p
ptr (expr_attrs p recursive attrs dynamic) = p
ptr (expr_list p elems) = p
ptr (expr_lambda p arg has formals body) = p
ptr (expr_call p fun args) = p
ptr (expr_let p q recursive attrs dynamic body) = p
ptr (expr_with p prev attrs body) = p
ptr (expr_if p c t e) = p
ptr (expr_assert p c body) = p
ptr (expr_op_not p e) = p
ptr (expr_bin p op a b) = p
ptr (expr_concat_strings p es) = p

abbrev pub exprs_list : Exprs → List Expr
exprs_list end_exprs = []
exprs_list (more_exprs e es) = e ∷ exprs_list es

abbrev pub path_list : AttrPath → List Expr
path_list end_path = []
path_list (static_name s path) = path_list path
path_list (dynamic_name e path) = e ∷ path_list path

abbrev pub attrs_list : Attrs → List Expr
attrs_list end_attrs = []
attrs_list (attr_def s inherited e pos displ rest) = e ∷ attrs_list rest

abbrev pub dynamic_list : DynamicAttrs → List Expr
dynamic_list end_dynamic = []
dynamic_list (dynamic_attr n v rest) = n ∷ v ∷ dynamic_list rest

abbrev pub formals_list : Formals → List Expr
formals_list end_formals = []
formals_list (formal s pos def rest) = def ∷ formals_list rest

-- The children that the visitor goes to, in its order; `hasFormals()` guards the formals.
abbrev pub guarded : Bool → List Expr → List Expr
guarded Bool.true es = es
guarded Bool.false es = []

abbrev pub children : Expr → List Expr
children (expr_select p e path def) = def ∷ e ∷ path_list path
children (expr_op_has_attr p e path) = e ∷ path_list path
children (expr_attrs p recursive attrs dynamic) = attrs_list attrs ++ dynamic_list dynamic
children (expr_list p elems) = exprs_list elems
children (expr_lambda p arg has formals body) = guarded has (formals_list formals) ++ body ∷ []
children (expr_call p fun args) = exprs_list args ++ fun ∷ []
children (expr_let p q recursive attrs dynamic body) =
    expr_attrs q recursive attrs dynamic ∷ body ∷ []
children (expr_with p prev attrs body) = attrs ∷ body ∷ []
children (expr_if p c t e) = c ∷ t ∷ e ∷ []
children (expr_assert p c body) = c ∷ body ∷ []
children (expr_op_not p e) = e ∷ []
children (expr_bin p op a b) = a ∷ b ∷ []
children (expr_concat_strings p es) = exprs_list es
children _ = []
