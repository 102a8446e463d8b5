-- ===== src/Runtime.antt =====
-- The runtime of a circuit: crates/compact/runtime.
pub mod Value
pub mod Layout
pub mod Encode
mod Tests
