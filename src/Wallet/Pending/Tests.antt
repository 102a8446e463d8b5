-- ===== src/Wallet/Pending/Tests.antt =====
-- Reservations of two builds, and the theorems there. A Dust spend is its nullifier.
use mathlib.Core.List.{Memᴰ}
use midnight_rs.Base.{
  ℕ, ◌≡◌, refl, Bool, true, ◌&&◌, ◌||◌, not, Option, none, some, List, [], ◌∷◌, arith, ok, any, leb,
  if◌then◌else◌,
}
use midnight_rs.Wallet.Types.{LedgerVersion, SpentUtxoKey, contains_key}
use midnight_rs.Wallet.Pending.{
  DustBatch, Reservations, no_reservations, reserve, evict_expired, spends_any_of, clear_confirmed,
  release,
}
use midnight_rs.Wallet.Pending.Laws.{holds_key, clear_confirmed-holds}
use midnight_rs.Wallet.Pending.Lifetime.{
  Step, Input, IsReserved, after, after-IsReserved, evict_expired-reserve,
}
use midnight_rs.Wallet.Pending.Release.{stamped, nullifiers, release-reserve}
use midnight_rs.Wallet.Pending.Stored.{
  StoredPending, Encoding, RoundTrips, to_stored, from_stored, from_stored-to_stored,
}

abbrev own : ℕ → ℕ
own n = n

abbrev key : ℕ → SpentUtxoKey
key index = record { intent_hash = 9; output_index = index }

-- A build at time 10 that spends Dust 1 and 2, output 0 and coin 5.
abbrev first : Reservations ℕ
first = record {
  dust = record { spends = 1 ∷ 2 ∷ []; reserved_at = 10; expires_at = 20 } ∷ [];
  unshielded = record { key = key 0; reserved_at = 10; expires_at = 20 } ∷ [];
  shielded = record { nullifier = 5; reserved_at = 10; expires_at = 20 } ∷ [];
}

first_reserved : reserve ((1 ∷ 2 ∷ []) ∷ []) (key 0 ∷ []) (5 ∷ []) 10 20 no_reservations ≡ first
unfolding reserve
first_reserved = refl

-- One seen nullifier frees the whole batch.
first_cleared : clear_confirmed own [] (2 ∷ []) first ≡ (record first { dust = [] }, true)
unfolding clear_confirmed
first_cleared = refl

-- A later stamp releases nothing.
late_release :
    release own (stamped 11 (1 ∷ [])) (stamped 11 (key 0 ∷ [])) (stamped 11 (5 ∷ [])) first ≡ first
unfolding release
late_release = refl

-- A build, another build that times out, and a confirmation of another output: the coin is reserved.
abbrev later : List (Step ℕ)
later =
    Step.reserved [] (key 2 ∷ []) [] 12 14
    ∷ Step.evicted 15
    ∷ Step.confirmed (key 2 ∷ []) (9 ∷ [])
    ∷ Step.released [] [] (record { input = 6; reserved_at = 10 } ∷ [])
    ∷ []

after-IsReserved_example :
    IsReserved 11 21
      (Input.coin 6)
      (after own later (reserve ((3 ∷ []) ∷ []) (key 1 ∷ []) (6 ∷ []) 11 21 first))
after-IsReserved_example =
    after-IsReserved own ((3 ∷ []) ∷ []) (key 1 ∷ []) (6 ∷ []) 11 21 first (Input.coin 6) later
      (Memᴰ.head refl) refl

clear_confirmed-holds_example :
    let (p', cleared) = clear_confirmed own (key 0 ∷ []) (2 ∷ []) first in
    ((k : SpentUtxoKey) → holds_key p' k ≡ (holds_key first k && not (contains_key (key 0 ∷ []) k)))
    × ((q : DustBatch ℕ → Bool)
        → any q p'.dust ≡ any (λ b. not (spends_any_of own b (2 ∷ [])) && q b) first.dust)
    × (p'.shielded ≡ first.shielded)
    × (cleared ≡ (
        any (λ e. contains_key (key 0 ∷ []) e.key) first.unshielded
        || any (λ b. spends_any_of own b (2 ∷ [])) first.dust))
clear_confirmed-holds_example = clear_confirmed-holds own (key 0 ∷ []) (2 ∷ []) first

evict_expired-reserve_example :
    evict_expired 21 (reserve ((3 ∷ []) ∷ []) (key 1 ∷ []) (6 ∷ []) 11 21 first) ≡ (
      if leb 21 21
      then reserve ((3 ∷ []) ∷ []) (key 1 ∷ []) (6 ∷ []) 11 21 (evict_expired 21 first)
      else evict_expired 21 first)
evict_expired-reserve_example =
    evict_expired-reserve ((3 ∷ []) ∷ []) (key 1 ∷ []) (6 ∷ []) 11 21 21 first

release-reserve_example :
    release own
      (stamped 11 (nullifiers own ((3 ∷ 1 ∷ []) ∷ [])))
      (stamped 11 (key 0 ∷ []))
      (stamped 11 (6 ∷ []))
      (reserve ((3 ∷ 1 ∷ []) ∷ []) (key 0 ∷ []) (6 ∷ []) 11 21 first)
    ≡ first
release-reserve_example =
    release-reserve own ((3 ∷ 1 ∷ []) ∷ []) (key 0 ∷ []) (6 ∷ []) 11 21 first refl refl refl refl

-- A text is the numbers themselves.
abbrev first_number : List ℕ → Option ℕ
first_number [] = none
first_number (n ∷ _) = some n

abbrev encoding : Encoding ℕ
encoding = record {
  spends_to_hex = λ x. some x;
  spends_from_hex = λ h. some h;
  nullifier_to_hex = λ n. some (n ∷ []);
  nullifier_from_hex = first_number;
  hash_to_hex = λ n. n ∷ [];
  hash_from_hex = first_number;
}

encoding-RoundTrips : RoundTrips encoding
encoding-RoundTrips = record {
  spends = λ x h e. cc;
  nullifier = λ n h e. ground arith;
  hash = λ n. refl;
}

abbrev first_stored : StoredPending
first_stored = record {
  ledger_version = LedgerVersion.v8;
  dust = record { spends_hex = 1 ∷ 2 ∷ []; reserved_at_secs = 10; expires_at_secs = 20 } ∷ [];
  unshielded =
      record { intent_hash = 9 ∷ []; output_index = 0; reserved_at_secs = 10; expires_at_secs = 20 }
      ∷ [];
  shielded = record { nullifier_hex = 5 ∷ []; reserved_at_secs = 10; expires_at_secs = 20 } ∷ [];
}

first_stored_lem : to_stored encoding LedgerVersion.v8 first ≡ ok first_stored
unfolding to_stored
first_stored_lem = refl

from_stored-to_stored_example :
    (from_stored encoding LedgerVersion.v8 first_stored ≡ ok first)
    × (from_stored encoding LedgerVersion.v9 first_stored ≡ ok no_reservations)
from_stored-to_stored_example =
    from_stored-to_stored encoding encoding-RoundTrips LedgerVersion.v8 LedgerVersion.v9 encoding
      first first_stored (λ e. cc) first_stored_lem
