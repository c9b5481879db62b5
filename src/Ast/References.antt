-- ===== src/Ast/References.antt =====
-- nixd/lib/AST/ParseAST.cpp and nixd/include/nixd/AST/ParseAST.h: the definitions of the variables,
-- the references to each definition, and the edits that rename them. `none` is where the code throws
-- `std::out_of_range`.
use nixd.Prelude.{
  ℕ, Bool, ◌&&◌, Option, none, some, List, [], ◌∷◌, ◌++◌, Bytes, ◌==◌, if◌then◌else◌,
}
use nixd.Ast.Expr.{Ptr, PosIdx, Var, Expr, ptr, null, expr_var}
use nixd.Ast.Env.{Found, found, not_found, out_of_range, no_fuel, search_env_expr, get_displ_of}
use nixd.Ast.Visit.{Edge, NodeMap, get_parent_map, traverse}
use nixd.Ast.Lookup.{ParseData, LineColumn, range_from, l_range}
use nixd.Protocol.{Position, Range}
mod Tests

pub record Definition : Type 0 where
  pub node : Expr
  pub displ : ℕ

abbrev pub same_definition : Definition → Definition → Bool
same_definition d e = (ptr d.node == ptr e.node) && (d.displ == e.displ)

abbrev pub VarAt : Type 0
VarAt = Ptr × Var

-- `Definitions` and `References`.
pub record Tables : Type 0 where
  pub definitions : List (Ptr × Definition)
  pub references : List (Definition × List VarAt)

unfoldable pub find_definition : Ptr → List (Ptr × Definition) → Option Definition
find_definition p [] = none
find_definition p ((q, d) ∷ ds) = let rest = find_definition p ds in if q == p then some d else rest

unfoldable pub put_definition : Ptr → Definition → List (Ptr × Definition) → List (Ptr × Definition)
put_definition p d [] = (p, d) ∷ []
put_definition p d ((q, e) ∷ ds) =
    let rest = put_definition p d ds in if q == p then (q, d) ∷ ds else (q, e) ∷ rest

unfoldable pub find_references : Definition → List (Definition × List VarAt) → Option (List VarAt)
find_references d [] = none
find_references d ((e, vs) ∷ rs) =
    let rest = find_references d rs in if same_definition e d then some vs else rest

-- `References[*Def].emplace_back(E)`.
unfoldable pub add_reference :
    Definition → VarAt → List (Definition × List VarAt) → List (Definition × List VarAt)
add_reference d v [] = (d, v ∷ []) ∷ []
add_reference d v ((e, vs) ∷ rs) =
    let rest = add_reference d v rs in
    if same_definition e d then (e, vs ++ v ∷ []) ∷ rs else (e, vs) ∷ rest

-- `searchDef`: where the search ends without throwing, the definition or none.
abbrev pub definition_of : ℕ → Found → Option (Option Definition)
definition_of displ (found null) = some none
definition_of displ (found e) = some (some (record { node = e; displ = displ }))
definition_of displ not_found = some none
definition_of displ out_of_range = none
definition_of displ no_fuel = none

unfoldable pub search_def : NodeMap → Ptr → Var → Option (Option Definition)
search_def m p v =
    let o = definition_of v.displ (search_env_expr p v m) in if v.from_with then some none else o

-- `visitExprVar` of `prepareDefRef`.
abbrev pub define : VarAt → Tables → Option (Option Definition) → Option Tables
define v t none = none
define v t (some none) = some t
define v t (some (some d)) = some (record {
  definitions = put_definition v.0 d t.definitions;
  references = add_reference d v t.references;
})

abbrev pub visit_var : NodeMap → Expr → Tables → Option Tables
visit_var m (expr_var p v) t = define (p, v) t (search_def m p v)
visit_var m _ t = some t

abbrev pub and_then : (Tables → Option Tables) → Option Tables → Option Tables
and_then rest none = none
and_then rest (some t) = rest t

unfoldable pub prepare_from : NodeMap → List Edge → Tables → Option Tables
prepare_from m [] t = some t
prepare_from m (e ∷ es) t = and_then (prepare_from m es) (visit_var m e.0 t)

abbrev pub no_tables : Tables
no_tables = record { definitions = []; references = [] }

unfoldable pub prepare_def_ref : Expr → Option Tables
prepare_def_ref root = prepare_from (get_parent_map root) (traverse root root) no_tables

-- `def`, of a variable, and `ref`, of a definition.
abbrev pub def : Tables → Ptr → Option Definition
def t p = find_definition p t.definitions

abbrev pub ref : Tables → Definition → Option (List VarAt)
ref t d = find_references d t.references

pub record TextEdit : Type 0 where
  pub range : Range
  pub new_text : Bytes

module _ (data' : ParseData) where
  abbrev pub n_pair : Option PosIdx → Option Range
  n_pair none = none
  n_pair (some p) = range_from data' p (data'.ends p)

  unfoldable pub def_range : Definition → Option Range
  def_range d = n_pair (get_displ_of d.node d.displ)

  -- `edit`, of the references: one without a range is left out.
  abbrev pub add_edit : Bytes → List TextEdit → Option Range → List TextEdit
  add_edit new_name edits none = edits
  add_edit new_name edits (some r) = record { range = r; new_text = new_name } ∷ edits

  unfoldable pub edit : Bytes → List VarAt → List TextEdit
  edit new_name [] = []
  edit new_name (v ∷ vs) = add_edit new_name (edit new_name vs) (l_range data' v.0)

  -- `rename`, of a definition with its references, of a definition, and of a variable.
  abbrev pub rename_range : Bytes → List VarAt → Option Range → Option (List TextEdit)
  rename_range new_name vs none = none
  rename_range new_name vs (some r) =
      some (edit new_name vs ++ record { range = r; new_text = new_name } ∷ [])

  abbrev pub rename_references : Definition → Bytes → Option (List VarAt) → Option (List TextEdit)
  rename_references d new_name none = none
  rename_references d new_name (some vs) = rename_range new_name vs (def_range d)

  unfoldable pub rename_definition : Tables → Definition → Bytes → Option (List TextEdit)
  rename_definition t d new_name = rename_references d new_name (ref t d)

  abbrev pub rename_def : Tables → Bytes → Option Definition → Option (List TextEdit)
  rename_def t new_name none = none
  rename_def t new_name (some d) = rename_definition t d new_name

  unfoldable pub rename_var : Tables → Ptr → Bytes → Option (List TextEdit)
  rename_var t p new_name = rename_def t new_name (def t p)
