-- ===== src/Wallet/Replay/Unshielded/Fold.antt =====
-- crates/midnight-wallet/src/replay.rs: the result of `replay_unshielded_events` as a fold of
-- `apply_unshielded_tx` over a log of transactions.
use midnight_rs.Base.{
  ◌+◌, ◌≡◌, refl, true, false, Option, none, some, List, [], ◌∷◌, ◌++◌, ◌⊎◌, inl, inr, arith, ℤ,
  pos, ◌<ℤ◌, ◌≤ℤ◌, Result, ok, ◌>>=◌, Result-cases, Option-cases, Bool-cases, length, ltb,
}
use midnight_rs.Wallet.Types.{SpentUtxoKey, TrackedUtxo, IndexerError, WalletError}
use midnight_rs.Wallet.Replay.Policy.{already_applied, order_regression, last_applied_before}
use midnight_rs.Wallet.Replay.Utxo.{UnshieldedTxData, apply_unshielded_tx}
use midnight_rs.Wallet.Replay.Unshielded.{
  Frame, Connection, Setup, State, Flow, on_stay, on_resubscribe, back_off, on_error, tx_id,
  block_height, max_with, reaches, applied, apply_tx, on_transaction, on_progress, on_frame,
  read_frames, connect, resume_tx_id, run, start, replay_unshielded_events,
}

-- Applied transactions, latest first.
abbrev pub Log : Type 0
Log = List UnshieldedTxData

abbrev pub end_state : Flow → State
end_state (Flow.stay high s) = s
end_state (Flow.resubscribe s) = s
end_state (Flow.done r s) = s
end_state (Flow.fail e s) = s

module _ (setup : Setup) (initial : List TrackedUtxo) where
  -- The UTXOs and the spent keys after the transactions of a log.
  abbrev pub apply_log : Log → Result WalletError (List TrackedUtxo × List SpentUtxoKey)
  apply_log [] = ok (initial, [])
  apply_log (tx ∷ log) = apply_log log >>= λ (utxos, spent).
      (apply_unshielded_tx setup.hash_from_hex utxos tx >>= λ (utxos', confirmed).
      ok (utxos', spent ++ confirmed))

  abbrev pub last_seen : Log → ℤ
  last_seen [] = last_applied_before setup.start_tx_id
  last_seen (tx ∷ log) = max_with (last_seen log) (tx_id tx.transaction)

  abbrev pub last_height : Log → ℤ
  last_height [] = setup.start_block_height
  last_height (tx ∷ log) = max_with (last_height log) (block_height tx.transaction)

  -- An id is new above all ids before it; the first transaction of a replay from the start is new too.
  abbrev pub IsNewId : Log → Option ℤ → Type 0
  IsNewId log none = Unit
  IsNewId log (some id) = (last_seen log <ℤ id) ⊎ ((length log ≡ 0) × (setup.start_tx_id ≤ℤ pos 0))

  abbrev pub Rises : Log → Type 0
  Rises [] = Unit
  Rises (tx ∷ log) = IsNewId log (tx_id tx.transaction) × Rises log

  pub record Explains (log : Log) (s : State) : Type 0 where
    pub folded : apply_log log ≡ ok (s.utxos, s.spent_keys)
    pub counted : s.applied_txs ≡ length log
    pub seen : s.last_seen_tx_id ≡ last_seen log
    pub height : s.last_height ≡ last_height log
    pub rises : Rises log

  -- A finished replay reports its variables.
  abbrev pub Reports : Flow → Type 0
  Reports (Flow.done r s) =
      (r.utxos ≡ s.utxos)
      × (r.spent ≡ s.spent_keys)
      × (r.last_block_height ≡ s.last_height)
      × (s.last_seen_tx_id ≤ℤ r.last_tx_id)
  Reports _ = Unit

  abbrev pub Ends : Flow → Type 0
  Ends r = ((log : Log) × Explains log (end_state r)) × Reports r

  back_off-Ends :
      (s : State) (e : WalletError) → ((log : Log) × Explains log s) → Ends (back_off s e)
  unfolding back_off
  back_off-Ends s e (log, h) = ((log, ground arith), ground arith)

  on_error-Ends :
      (s : State) (e : IndexerError) → ((log : Log) × Explains log s) → Ends (on_error s e)
  unfolding on_error
  on_error-Ends s e (log, h) = ((log, ground arith), ground arith)

  on_progress-Ends :
      (target : ℤ) (high : Option ℤ) (s : State)
      → ((log : Log) × Explains log s)
      → Ends (on_progress setup target high s)
  unfolding on_progress
  on_progress-Ends target high s (log, h) = ((log, ground arith), ground arith)

  applied-Ends :
      (tx : UnshieldedTxData) (high : Option ℤ) (s : State) (log : Log) (utxos : List TrackedUtxo)
      (confirmed : List SpentUtxoKey)
      → apply_unshielded_tx setup.hash_from_hex s.utxos tx ≡ ok (utxos, confirmed)
      → IsNewId log (tx_id tx.transaction)
      → Explains log s
      → Ends (applied tx high s utxos confirmed)
  unfolding applied
  applied-Ends tx high s log utxos confirmed e new h =
      elim (Bool-cases
        (reaches (max_with s.last_seen_tx_id (tx_id tx.transaction)) s.target_tx_id)) [
          | inl done ↦ rw (done, applied) ((tx ∷ log, explains), (refl, refl, refl, omega arith))
          | inr more ↦ rw (more, applied) ((tx ∷ log, explains), tt)
        ]
    where
      explains : Explains (tx ∷ log) (record s {
        utxos = utxos;
        last_height = max_with s.last_height (block_height tx.transaction);
        last_seen_tx_id = max_with s.last_seen_tx_id (tx_id tx.transaction);
        spent_keys = s.spent_keys ++ confirmed;
        applied_txs = s.applied_txs + 1;
        retries = 0;
      })
      explains = record {
        folded = rw h.folded (rw e);
        counted = omega (arith, h.counted);
        seen = rw h.seen;
        height = rw h.height;
        rises = (new, h.rises);
      }

  apply_tx-Ends :
      (tx : UnshieldedTxData) (high : Option ℤ) (s : State) (log : Log)
      → IsNewId log (tx_id tx.transaction)
      → Explains log s
      → Ends (apply_tx setup tx high s)
  unfolding apply_tx
  apply_tx-Ends tx high s log new h =
      elim (Result-cases (apply_unshielded_tx setup.hash_from_hex s.utxos tx)) [
        | inl ((utxos, confirmed), e) ↦
            rw (e, apply_tx) (applied-Ends tx high s log utxos confirmed e new h)
        | inr (e, failed) ↦ rw (failed, apply_tx) ((log, h), tt)
      ]

  IsNew-unless_applied :
      (id : ℤ) (s : State) (log : Log)
      → Explains log s
      → already_applied id s.last_seen_tx_id setup.start_tx_id (ltb 0 s.applied_txs) ≡ false
      → IsNewId log (some id)
  unfolding already_applied
  IsNew-unless_applied id s log h e = rw (← h.seen) (rw (← h.counted) (ground arith))

  -- The id test of a transaction, on the id.
  held-Ends :
      (tx : UnshieldedTxData) (high : Option ℤ) (s : State) (log : Log) (id : Option ℤ)
      → tx_id tx.transaction ≡ id
      → Explains log s
      → Ends (on_transaction setup tx high s)
  unfolding on_transaction
  held-Ends tx high s log none e h =
      rw (e, on_transaction) (apply_tx-Ends tx high s log (rw e tt) h)
  held-Ends tx high s log (some id) e h = elim (Option-cases (order_regression id high)) [
    | inr (prev, regressed) ↦ rw (e, on_transaction) (rw regressed ((log, h), tt))
    | inl ordered ↦
        elim (Bool-cases
          (already_applied id s.last_seen_tx_id setup.start_tx_id (ltb 0 s.applied_txs))) [
            | inl old ↦ rw (e, on_transaction) (rw ordered (rw old ((log, h), tt)))
            | inr new ↦
                rw (e, on_transaction)
                  (rw ordered (
                    rw new (
                      apply_tx-Ends tx (some id) s log (rw e (IsNew-unless_applied id s log h new))
                        h)))
          ]
  ]

  on_frame-Ends :
      (f : Frame) (high : Option ℤ) (s : State)
      → ((log : Log) × Explains log s)
      → Ends (on_frame setup f high s)
  unfolding on_frame
  on_frame-Ends (Frame.transaction tx) high s (log, h) =
      held-Ends tx high s log (tx_id tx.transaction) refl h
  on_frame-Ends (Frame.progress target) high s k = on_progress-Ends target high s k
  on_frame-Ends (Frame.dropped e) high s k = on_error-Ends s e k
  on_frame-Ends Frame.timed_out high s (log, h) = ((log, ground arith), ground arith)

  on_stay-Ends :
      (r : Flow) (k : Option ℤ → State → Flow)
      → Ends r
      → ((high : Option ℤ) (s : State) → ((log : Log) × Explains log s) → Ends (k high s))
      → Ends (on_stay r k)
  on_stay-Ends (Flow.stay high s) k h next = next high s h.0
  on_stay-Ends (Flow.resubscribe s) k h next = h
  on_stay-Ends (Flow.done r s) k h next = h
  on_stay-Ends (Flow.fail e s) k h next = h

  on_resubscribe-Ends :
      (r : Flow) (k : State → Flow)
      → Ends r
      → ((s : State) → ((log : Log) × Explains log s) → Ends (k s))
      → Ends (on_resubscribe r k)
  on_resubscribe-Ends (Flow.stay high s) k h next = h
  on_resubscribe-Ends (Flow.resubscribe s) k h next = next s h.0
  on_resubscribe-Ends (Flow.done r s) k h next = h
  on_resubscribe-Ends (Flow.fail e s) k h next = h

  read_frames-Ends :
      (fs : List Frame) (high : Option ℤ) (s : State)
      → ((log : Log) × Explains log s)
      → Ends (read_frames setup fs high s)
  unfolding read_frames
  read_frames-Ends [] high s k = back_off-Ends s (WalletError.indexer true IndexerError.transport) k
  read_frames-Ends (f ∷ fs) high s k =
      on_stay-Ends (on_frame setup f high s) (read_frames setup fs) (on_frame-Ends f high s k)
        (read_frames-Ends fs)

  connect-Ends :
      (c : Connection) (s : State) → ((log : Log) × Explains log s) → Ends (connect setup c s)
  unfolding connect
  connect-Ends (Connection.refused e) s k = on_error-Ends s e k
  connect-Ends (Connection.opened fs) s k = read_frames-Ends fs none s k

  run-Ends :
      (answers : List (ℤ → Connection)) (s : State)
      → ((log : Log) × Explains log s)
      → Ends (run setup answers s)
  unfolding run
  run-Ends [] s k = (k, tt)
  run-Ends (answer ∷ answers) s k =
      let c = answer (resume_tx_id setup s) in
      on_resubscribe-Ends (connect setup c s) (run setup answers) (connect-Ends c s k)
        (run-Ends answers)

  -- However the indexer answers and however the replay ends, there is a log of transactions, as long
  -- as the count of applied ones, such that: the UTXOs and the spent keys are what
  -- `apply_unshielded_tx` makes of the initial UTXOs over the log; each id in the log is above all ids
  -- before it (a replay from id 0 or below takes its first transaction whatever its id); the last id
  -- and the last height are the largest of the start and the log. A finished replay reports these
  -- UTXOs, keys and height, and an id no less than the last one.
  pub replay-Explains :
      (answers : List (ℤ → Connection)) → Ends (replay_unshielded_events setup answers initial)
  unfolding replay_unshielded_events
  replay-Explains answers =
      run-Ends answers (start setup initial)
        ([], record { folded = refl; counted = refl; seen = refl; height = refl; rises = tt })
