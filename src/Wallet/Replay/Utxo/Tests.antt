-- ===== src/Wallet/Replay/Utxo/Tests.antt =====
-- A transaction applied and one refused, and the theorems there.
use midnight_rs.Base.{
  ℕ, ◌≡◌, ◌↔◌, refl, ◌&&◌, ◌||◌, not, Option, none, some, List, [], ◌∷◌, ◌++◌, map, pos, ok, err,
  traverse,
}
use midnight_rs.Wallet.Types.{
  UtxoField, WalletError, SpentUtxoKey, TrackedUtxo, spent_key, contains_key,
}
use midnight_rs.Wallet.Replay.Utxo.{
  SubscriptionUtxo, UnshieldedTxData, parse_u128, to_u32, parse_utxo, apply_unshielded_tx,
}
use midnight_rs.Wallet.Replay.Utxo.Laws.{holds, apply_unshielded_tx-ok, apply_unshielded_tx-err}

-- A decoder of one-byte hashes.
abbrev pub one_byte : List ℕ → Option ℕ
one_byte (b ∷ []) = some b
one_byte _ = none

abbrev pub reported : List ℕ → ℕ → SubscriptionUtxo
reported value index = record {
  owner = "addr";
  token_type = 0 ∷ [];
  value = value;
  intent_hash = 7 ∷ [];
  output_index = pos index;
  ctime = none;
  registered_for_dust_generation = none;
}

abbrev pub tracked : ℕ → ℕ → TrackedUtxo
tracked value index = record {
  owner = "addr";
  token_type = 0;
  value = value;
  intent_hash = 7;
  output_index = index;
  ctime = none;
  registered_for_dust_generation = none;
}

abbrev pub key : ℕ → SpentUtxoKey
key index = record { intent_hash = 7; output_index = index }

-- It spends output 1 and creates output 2, of value 42.
abbrev pub payment : UnshieldedTxData
payment = record {
  transaction = none;
  created_utxos = reported (b'4' ∷ b'2' ∷ []) 2 ∷ [];
  spent_utxos = reported (b'+' ∷ b'5' ∷ []) 1 ∷ [];
}

-- The created value is no number.
abbrev broken : UnshieldedTxData
broken = record {
  transaction = none;
  created_utxos = reported (b'4' ∷ b'x' ∷ []) 2 ∷ [];
  spent_utxos = reported (b'5' ∷ []) 1 ∷ [];
}

abbrev held : List TrackedUtxo
held = tracked 5 1 ∷ tracked 6 3 ∷ []

payment_applied :
    apply_unshielded_tx one_byte held payment ≡ ok (tracked 6 3 ∷ tracked 42 2 ∷ [], key 1 ∷ [])
unfolding apply_unshielded_tx parse_utxo parse_u128 to_u32
payment_applied = refl

broken_refused :
    apply_unshielded_tx one_byte held broken ≡ err (WalletError.malformed_utxo UtxoField.value none)
unfolding apply_unshielded_tx parse_utxo parse_u128 to_u32
broken_refused = refl

payment_parsed : parse_utxo one_byte (reported (b'4' ∷ b'2' ∷ []) 2) ≡ ok (tracked 42 2)
unfolding parse_utxo parse_u128 to_u32
payment_parsed = refl

apply_unshielded_tx-ok_example :
    (spent created : List TrackedUtxo) × (traverse (parse_utxo one_byte) payment.spent_utxos
      ≡ ok spent)
    × (traverse (parse_utxo one_byte) payment.created_utxos ≡ ok created)
    × (key 1 ∷ [] ≡ map spent_key spent)
    × ((k : SpentUtxoKey)
        → holds k (tracked 6 3 ∷ tracked 42 2 ∷ [])
          ≡ ((holds k held && not (contains_key (key 1 ∷ []) k)) || holds k created))
apply_unshielded_tx-ok_example = apply_unshielded_tx-ok one_byte held payment payment_applied

apply_unshielded_tx-err_example :
    let e = WalletError.malformed_utxo UtxoField.value none in
    (apply_unshielded_tx one_byte held broken ≡ err e)
    ↔ (traverse (parse_utxo one_byte) (broken.spent_utxos ++ broken.created_utxos) ≡ err e)
apply_unshielded_tx-err_example =
    apply_unshielded_tx-err one_byte held broken (WalletError.malformed_utxo UtxoField.value none)
