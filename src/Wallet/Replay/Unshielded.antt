-- ===== src/Wallet/Replay/Unshielded.antt =====
-- `replay_unshielded_events` of midnight-wallet/src/replay.rs. The indexer is a list of answers to the
-- subscribe requests, as for the ledger events; the stream mixes transactions and progress updates.
pub mod Fold
mod Tests
use midnight_rs.Base.{
  ℕ, ◌+◌, Bool, true, false, ◌||◌, Option, none, some, List, [], ◌∷◌, ◌++◌, ltb, if◌then◌else◌, ℤ,
  pos, leb_ℤ, eqb_ℤ, max_ℤ, wrapping_suc, Result, ok, err,
}
use midnight_rs.Wallet.Types.{
  IndexerError, is_retryable, StreamKind, WalletError, SpentUtxoKey, TrackedUtxo,
}
use midnight_rs.Wallet.Replay.Policy.{
  reconnect_max_retries, last_applied_before, reconnect_delay, already_applied, order_regression,
}
use midnight_rs.Wallet.Replay.Utxo.{UnshieldedTxRef, UnshieldedTxData, apply_unshielded_tx}

-- What one read of the subscription gives; `progress` is an `UnshieldedTxProgress`.
pub data Frame : Type 0 where
  transaction : UnshieldedTxData → Frame
  progress : ℤ → Frame
  dropped : IndexerError → Frame
  timed_out : Frame

pub data Connection : Type 0 where
  refused : IndexerError → Connection
  opened : List Frame → Connection

-- `UnshieldedReplay`
pub record UnshieldedReplay : Type 0 where
  pub utxos : List TrackedUtxo
  pub last_tx_id : ℤ
  pub last_block_height : ℤ
  pub spent : List SpentUtxoKey

pub record Setup : Type 0 where
  pub hash_from_hex : List ℕ → Option ℕ
  pub start_tx_id : ℤ
  pub start_block_height : ℤ
  pub resuming : Bool

-- The loop's variables, and the back-off waited so far.
pub record State : Type 0 where
  pub utxos : List TrackedUtxo
  pub last_height : ℤ
  pub last_seen_tx_id : ℤ
  pub spent_keys : List SpentUtxoKey
  pub target_tx_id : Option ℤ
  pub applied_txs : ℕ
  pub retries : ℕ
  pub slept : ℕ

-- How a piece of the loop ends, as for the ledger events; `done` carries the loop's variables too.
pub data Flow : Type 0 where
  stay : Option ℤ → State → Flow
  resubscribe : State → Flow
  done : UnshieldedReplay → State → Flow
  fail : WalletError → State → Flow

abbrev pub on_stay : Flow → (Option ℤ → State → Flow) → Flow
on_stay (Flow.stay high s) k = k high s
on_stay (Flow.resubscribe s) k = Flow.resubscribe s
on_stay (Flow.done r s) k = Flow.done r s
on_stay (Flow.fail e s) k = Flow.fail e s

abbrev pub on_resubscribe : Flow → (State → Flow) → Flow
on_resubscribe (Flow.stay high s) k = Flow.stay high s
on_resubscribe (Flow.resubscribe s) k = k s
on_resubscribe (Flow.done r s) k = Flow.done r s
on_resubscribe (Flow.fail e s) k = Flow.fail e s

-- The replay that ends at a state, with the id to resume after.
abbrev pub caught_up : ℤ → State → Flow
caught_up last_tx_id s =
    Flow.done
      (record {
        utxos = s.utxos;
        last_tx_id = last_tx_id;
        last_block_height = s.last_height;
        spent = s.spent_keys;
      })
      s

unfoldable pub back_off : State → WalletError → Flow
back_off s e =
    if ltb s.retries reconnect_max_retries
    then Flow.resubscribe
        (record s { retries = s.retries + 1; slept = s.slept + reconnect_delay (s.retries + 1) })
    else Flow.fail e s

unfoldable pub on_error : State → IndexerError → Flow
unfolding back_off
on_error s e =
    let gave_up = WalletError.indexer (is_retryable e) e in
    if is_retryable e then back_off s gave_up else Flow.fail gave_up s

-- `tx_data.transaction.as_ref().and_then(|t| t.id)`, and the height of its block
abbrev pub tx_id : Option UnshieldedTxRef → Option ℤ
tx_id none = none
tx_id (some t) = t.id

abbrev pub block_height : Option UnshieldedTxRef → Option ℤ
block_height none = none
block_height (some t) = t.block

abbrev pub max_with : ℤ → Option ℤ → ℤ
max_with a none = a
max_with a (some b) = max_ℤ a b

-- The event's id goes into an error that has none.
abbrev pub attach_id : Option ℤ → WalletError → WalletError
attach_id id (WalletError.malformed_utxo field none) = WalletError.malformed_utxo field id
attach_id id e = e

-- Whether the target is known and reached.
abbrev pub reaches : ℤ → Option ℤ → Bool
reaches last_seen none = false
reaches last_seen (some target) = leb_ℤ target last_seen

-- The rest of a transaction's handling, once its UTXOs are applied.
unfoldable pub applied :
    UnshieldedTxData → Option ℤ → State → List TrackedUtxo → List SpentUtxoKey → Flow
applied tx_data conn_high s utxos confirmed =
    let s' : State = record {
      utxos = utxos;
      last_height = max_with s.last_height (block_height tx_data.transaction);
      last_seen_tx_id = max_with s.last_seen_tx_id (tx_id tx_data.transaction);
      spent_keys = s.spent_keys ++ confirmed;
      target_tx_id = s.target_tx_id;
      applied_txs = s.applied_txs + 1;
      retries = 0;
      slept = s.slept;
    } in
    if reaches s'.last_seen_tx_id s'.target_tx_id
    then caught_up s'.last_seen_tx_id s'
    else Flow.stay conn_high s'

module _ (setup : Setup) where
  open setup use {hash_from_hex, start_tx_id, resuming}

  -- A transaction that is not a re-delivery.
  unfoldable pub apply_tx : UnshieldedTxData → Option ℤ → State → Flow
  apply_tx tx_data conn_high s = elim (apply_unshielded_tx hash_from_hex s.utxos tx_data) [
    | err e ↦ Flow.fail (attach_id (tx_id tx_data.transaction) e) s
    | ok (utxos, confirmed) ↦ applied tx_data conn_high s utxos confirmed
  ]

  -- A transaction with an id is held to the order of its connection and skipped where it is a
  -- re-delivery; one without is applied as it is.
  unfoldable pub on_transaction : UnshieldedTxData → Option ℤ → State → Flow
  on_transaction tx_data conn_high s = elim (tx_id tx_data.transaction) [
    | none ↦ apply_tx tx_data conn_high s
    | some id ↦ elim (order_regression id conn_high) [
      | some prev ↦ Flow.fail (WalletError.event_order StreamKind.unshielded id prev) s
      | none ↦
          if already_applied id s.last_seen_tx_id start_tx_id (ltb 0 s.applied_txs)
          then Flow.stay (some id) s
          else apply_tx tx_data (some id) s
    ]
  ]

  unfoldable pub on_progress : ℤ → Option ℤ → State → Flow
  on_progress target conn_high s =
      let s' : State = record s { retries = 0 } in
      if eqb_ℤ target (pos 0) || leb_ℤ target s.last_seen_tx_id
      then caught_up (max_ℤ s.last_seen_tx_id target) s'
      else Flow.stay conn_high (record s' { target_tx_id = some target })

  unfoldable pub on_frame : Frame → Option ℤ → State → Flow
  on_frame (Frame.transaction tx_data) conn_high s = on_transaction tx_data conn_high s
  on_frame (Frame.progress target) conn_high s = on_progress target conn_high s
  on_frame (Frame.dropped e) conn_high s = on_error s e
  on_frame Frame.timed_out conn_high s =
      if resuming
      then caught_up s.last_seen_tx_id s
      else Flow.fail (WalletError.indexer true IndexerError.transport) s

  unfoldable pub read_frames : List Frame → Option ℤ → State → Flow
  read_frames [] conn_high s = back_off s (WalletError.indexer true IndexerError.transport)
  read_frames (f ∷ fs) conn_high s = on_stay (on_frame f conn_high s) (read_frames fs)

  unfoldable pub connect : Connection → State → Flow
  connect (Connection.refused e) s = on_error s e
  connect (Connection.opened fs) s = read_frames fs none s

  unfoldable pub resume_tx_id : State → ℤ
  resume_tx_id s = if ltb 0 s.applied_txs then wrapping_suc s.last_seen_tx_id else start_tx_id

  -- `resubscribe` at the end: the replay waits for an answer that is not listed.
  unfoldable pub run : List (ℤ → Connection) → State → Flow
  run [] s = Flow.resubscribe s
  run (answer ∷ answers) s = on_resubscribe (connect (answer (resume_tx_id s)) s) (run answers)

  abbrev pub start : List TrackedUtxo → State
  start initial_utxos = record {
    utxos = initial_utxos;
    last_height = setup.start_block_height;
    last_seen_tx_id = last_applied_before start_tx_id;
    spent_keys = [];
    target_tx_id = none;
    applied_txs = 0;
    retries = 0;
    slept = 0;
  }

  unfoldable pub replay_unshielded_events : List (ℤ → Connection) → List TrackedUtxo → Flow
  replay_unshielded_events answers initial_utxos = run answers (start initial_utxos)
