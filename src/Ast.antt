-- ===== src/Ast.antt =====
-- nixd/lib/Expr and nixd/include/nixd/Expr: the syntax tree, its visitor, the parent map, static
-- scoping (bindVarsStatic) and the search for the expression that binds a variable.
pub mod Expr
pub mod Visit
pub mod Induction
pub mod Env
pub mod Bind
pub mod Scope
pub mod Rank
pub mod Distinct
pub mod Resolve
pub mod Symbols
pub mod Offered
pub mod References
pub mod Entries
pub mod Inverse
pub mod Prepared
pub mod Lookup
mod Tests
