-- ===== src/PrivateState.antt =====
-- midnight-private-state: the journal of a contract's private state, one snapshot for each call.
pub mod Types
pub mod Graph
pub mod Store
pub mod Import
