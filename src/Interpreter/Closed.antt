-- ===== src/Interpreter/Closed.antt =====
-- crates/compact/interpreter/src/lib.rs: relations between runs, and what they ask of the parts of a run.
pub mod Parts
pub mod Operands
pub mod Calls
pub mod Steps
use midnight_rs.Base.{
  ℕ, zero, suc, ◌+◌, Bool, true, false, Option, none, some, List, [], ◌∷◌, ltb, if◌then◌else◌,
  length, Result, ok_or,
}
use midnight_rs.Ir.Model.{Ty}
use midnight_rs.Ir.Expr.{Argument, Expr}
use midnight_rs.Runtime.Value.{AlignedValue, Value, Values, Try}
use midnight_rs.Interpreter.Monad.{
  Op, Setting, Run, ◌>>=◌, try, local, bind_local, scoped, push_zswap_output, push_zswap_input,
  push_private_output, infer, ask_witness, run_ops,
}

abbrev pub Relation : Type 1
Relation = (A : Type 0) → Run A → Run A → Type 0

-- What the parts of a run ask of a relation.
pub record IsClosed (s : Setting) (R : Relation) : Type 1 where
  pub at_try : {A : Type 0} → (t : Try A) → R _ (try t) (try t)
  pub at_bind :
      {A B : Type 0}
      → {m m' : Run A} → {k k' : A → Run B} → R _ m m'
      → ((a : A) → R _ (k a) (k' a))
      → R _ (m >>= k) (m' >>= k')
  pub at_local : (id : List ℕ) → R _ (local id) (local id)
  pub at_bind_local :
      (id : List ℕ) → (v : Value) → (t : Ty) → R _ (bind_local id v t) (bind_local id v t)
  pub at_scoped :
      (ps : List Argument)
      → (vs : Values) → {m m' : Run Value} → R _ m m'
      → R _ (scoped ps vs m) (scoped ps vs m')
  pub at_zswap_output : (v w : Value) → R _ (push_zswap_output v w) (push_zswap_output v w)
  pub at_zswap_input : (v : Value) → R _ (push_zswap_input v) (push_zswap_input v)
  pub at_private_output :
      (av : AlignedValue) → R _ (push_private_output av) (push_private_output av)
  pub at_infer : (e : Expr) → R _ (infer s e) (infer s e)
  pub at_ask_witness :
      (name : List ℕ) → (vs : Values) → R _ (ask_witness s name vs) (ask_witness s name vs)
  pub at_run_ops : (ops : List Op) → R _ (run_ops s ops) (run_ops s ops)
