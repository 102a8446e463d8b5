-- ===== src/Wallet/Replay/Unshielded/Tests.antt =====
-- A replay of the unshielded stream, and the theorem there.
use midnight_rs.Base.{ℕ, ◌≡◌, refl, true, false, none, some, List, [], ◌∷◌, ℤ, pos}
use midnight_rs.Wallet.Types.{TrackedUtxo, is_retryable}
use midnight_rs.Wallet.Replay.Policy.{
  last_applied_before, reconnect_delay, already_applied, order_regression,
}
use midnight_rs.Wallet.Replay.Utxo.{
  SubscriptionUtxo, parse_u128, to_u32, parse_utxo, apply_unshielded_tx,
}
use midnight_rs.Wallet.Replay.Unshielded.{
  Frame, Connection, Setup, caught_up, back_off, on_error, applied, apply_tx, on_transaction,
  on_progress, on_frame, read_frames, connect, resume_tx_id, run, replay_unshielded_events,
}
use midnight_rs.Wallet.Replay.Unshielded.Fold.{Ends, replay-Explains}

abbrev setup : Setup
setup = record {
  hash_from_hex = λ bytes. some 7;
  start_tx_id = pos 1;
  start_block_height = pos 10;
  resuming = false;
}

abbrev utxo : ℕ → SubscriptionUtxo
utxo index = record {
  owner = "addr";
  token_type = [];
  value = b'9' ∷ [];
  intent_hash = [];
  output_index = pos index;
  ctime = none;
  registered_for_dust_generation = none;
}

abbrev tracked : ℕ → TrackedUtxo
tracked index = record {
  owner = "addr";
  token_type = 7;
  value = 9;
  intent_hash = 7;
  output_index = index;
  ctime = none;
  registered_for_dust_generation = none;
}

abbrev tx : ℕ → List SubscriptionUtxo → List SubscriptionUtxo → Frame
tx id created spent = Frame.transaction (record {
  transaction = some (record { id = some (pos id); block = some (pos 12) });
  created_utxos = created;
  spent_utxos = spent;
})

-- The target is transaction 3; the drop comes after transaction 2, which is then delivered again.
abbrev answers : List (ℤ → Connection)
answers =
    (λ _. Connection.opened (Frame.progress (pos 3) ∷ tx 2 (utxo 1 ∷ utxo 2 ∷ []) [] ∷ []))
    ∷ (λ _. Connection.opened (tx 2 (utxo 1 ∷ []) [] ∷ tx 3 [] (utxo 1 ∷ []) ∷ []))
    ∷ []

run_answers :
    replay_unshielded_events setup answers []
    ≡ caught_up (pos 3) (record {
      utxos = tracked 2 ∷ [];
      last_height = pos 12;
      last_seen_tx_id = pos 3;
      spent_keys = record { intent_hash = 7; output_index = 1 } ∷ [];
      target_tx_id = some (pos 3);
      applied_txs = 2;
      retries = 0;
      slept = 250;
    })
unfolding replay_unshielded_events run connect read_frames on_frame on_transaction on_progress
    apply_tx applied back_off on_error resume_tx_id apply_unshielded_tx parse_utxo parse_u128 to_u32
    is_retryable last_applied_before reconnect_delay already_applied order_regression
    midnight_rs.Base.Int.◌-ℤ◌ midnight_rs.Base.Int.◌+ℤ◌
run_answers = refl

replay-Explains_example : Ends setup [] (replay_unshielded_events setup answers [])
replay-Explains_example = replay-Explains setup [] answers
