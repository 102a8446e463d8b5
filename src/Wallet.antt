-- ===== src/Wallet.antt =====
-- midnight-wallet: what a wallet reads from the indexer and what it reserves.
pub mod Types
pub mod Replay
pub mod Pending
