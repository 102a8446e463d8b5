-- ===== src/Wallet/Replay.antt =====
-- midnight-wallet/src/replay.rs: the replays of the event streams.
pub mod Policy
pub mod Ledger
pub mod Utxo
pub mod Unshielded
