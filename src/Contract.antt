-- ===== src/Contract.antt =====
-- The crate midnight-contract: the shielded change that a call or a deploy owes back to the wallet, and
-- the maintenance of a contract by a committee.
pub mod Change
pub mod Maintenance
