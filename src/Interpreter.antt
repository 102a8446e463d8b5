-- ===== src/Interpreter.antt =====
-- The circuit interpreter: crates/compact/interpreter.
pub mod Program
pub mod Infer
pub mod Numbers
pub mod Elements
pub mod Monad
pub mod Ops
pub mod Calls
pub mod Eval
pub mod Run
pub mod Closed
pub mod Fuel
pub mod Transcript
pub mod Replay
pub mod Scope
pub mod Execution
pub mod Tests
