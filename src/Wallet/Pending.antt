-- ===== src/Wallet/Pending.antt =====
-- midnight-wallet/src/per_ledger/pending.rs: the inputs that locally built transactions reserve until
-- the chain confirms them, a release hands them back, or their TTL ends. `D` is the ledger's Dust
-- spend, of which the wallet reads the nullifier; nullifiers and hashes are numbers, times are seconds.
pub mod Laws
pub mod Lifetime
pub mod Release
pub mod Stored
mod Tests
use midnight_rs.Base.{
  ℕ, Bool, true, false, ◌&&◌, ◌||◌, not, Option, none, some, List, [], ◌∷◌, ◌++◌, map, leb, ◌==◌,
  if◌then◌else◌, is_empty, any, retain, length,
}
use midnight_rs.Wallet.Types.{SpentUtxoKey, eq_key, contains_key}

-- `PendingDustBatch`
pub record DustBatch (D : Type 0) : Type 0 where
  pub spends : List D
  pub reserved_at : ℕ
  pub expires_at : ℕ

-- `PendingUnshieldedSpend` and `PendingShieldedSpend`
pub record UnshieldedSpend : Type 0 where
  pub key : SpentUtxoKey
  pub reserved_at : ℕ
  pub expires_at : ℕ

pub record ShieldedSpend : Type 0 where
  pub nullifier : ℕ
  pub reserved_at : ℕ
  pub expires_at : ℕ

-- `PendingReservations`
pub record Reservations (D : Type 0) : Type 0 where
  pub dust : List (DustBatch D)
  pub unshielded : List UnshieldedSpend
  pub shielded : List ShieldedSpend

-- `ReservedInput<T>`
pub record ReservedInput (T : Type 0) : Type 0 where
  pub input : T
  pub reserved_at : ℕ

-- `Vec::contains` on nullifiers
abbrev pub contains : List ℕ → ℕ → Bool
contains ns n = any (λ m. m == n) ns

-- Equality of the pair of lengths before and after.
abbrev pub same_lengths : ℕ × ℕ → ℕ × ℕ → Bool
same_lengths (a, b) (c, d) = a == c && b == d

unfoldable pub within_ttl : ℕ → ℕ → Bool
within_ttl expires_at now = leb now expires_at

module _ {D : Type 0} where
  abbrev pub no_reservations : Reservations D
  no_reservations = record { dust = []; unshielded = []; shielded = [] }

  unfoldable pub reserve :
      List (List D) → List SpentUtxoKey → List ℕ → ℕ → ℕ → Reservations D → Reservations D
  reserve dust_batches unshielded shielded reserved_at expires_at p = record {
    dust =
        p.dust
        ++ map
            (λ spends. record {
              spends = spends;
              reserved_at = reserved_at;
              expires_at = expires_at;
            })
            dust_batches;
    unshielded =
        p.unshielded
        ++ map (λ key. record { key = key; reserved_at = reserved_at; expires_at = expires_at })
            unshielded;
    shielded =
        p.shielded
        ++ map
            (λ nullifier. record {
              nullifier = nullifier;
              reserved_at = reserved_at;
              expires_at = expires_at;
            })
            shielded;
  }

  unfoldable pub evict_expired : ℕ → Reservations D → Reservations D
  unfolding within_ttl
  evict_expired now p = record {
    dust = retain (λ b. within_ttl b.expires_at now) p.dust;
    unshielded = retain (λ e. within_ttl e.expires_at now) p.unshielded;
    shielded = retain (λ e. within_ttl e.expires_at now) p.shielded;
  }

  module _ (old_nullifier : D → ℕ) where
    -- `PendingDustBatch::spends`, and `spends_any_of`
    abbrev pub batch_spends : DustBatch D → ℕ → Bool
    batch_spends b nullifier = any (λ s. old_nullifier s == nullifier) b.spends

    abbrev pub spends_any_of : DustBatch D → List ℕ → Bool
    spends_any_of b nullifiers = any (λ n. batch_spends b n) nullifiers

    -- The reservations left, and whether one was removed.
    unfoldable pub clear_confirmed :
        List SpentUtxoKey → List ℕ → Reservations D → Reservations D × Bool
    clear_confirmed spent_unshielded dust_nullifiers p =
        let unshielded =
          if not (is_empty spent_unshielded)
          then retain (λ e. not (contains_key spent_unshielded e.key)) p.unshielded
          else p.unshielded in
        let dust =
          if not (is_empty dust_nullifiers)
          then retain (λ b. not (spends_any_of b dust_nullifiers)) p.dust
          else p.dust in
        (
          record { dust = dust; unshielded = unshielded; shielded = p.shielded },
          not (same_lengths (length unshielded, length dust) (length p.unshielded, length p.dust)),
        )

    unfoldable pub release :
        List (ReservedInput ℕ)
        → List (ReservedInput SpentUtxoKey)
        → List (ReservedInput ℕ)
        → Reservations D
        → Reservations D
    release dust unshielded shielded p = record {
      dust =
          retain
            (λ b. not (any (λ d. d.reserved_at == b.reserved_at && batch_spends b d.input) dust))
            p.dust;
      unshielded =
          retain
            (λ e.
              not (any (λ u. u.reserved_at == e.reserved_at && eq_key u.input e.key) unshielded))
            p.unshielded;
      shielded =
          retain
            (λ e.
              not (any (λ s. s.reserved_at == e.reserved_at && s.input == e.nullifier) shielded))
            p.shielded;
    }
