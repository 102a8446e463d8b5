-- ===== src/Ir.antt =====
-- The analyzed IR of the Compact compiler: crates/compact/analyzed-ir.
pub mod Datum
pub mod Atoms
pub mod Sexp
pub mod Text
pub mod Model
pub mod OpName
pub mod Expr
pub mod Parse
mod Tests
