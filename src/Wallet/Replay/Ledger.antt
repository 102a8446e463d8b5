-- ===== src/Wallet/Replay/Ledger.antt =====
-- `replay_ledger_events` of midnight-wallet/src/replay.rs: the zswap or Dust stream, handed event by
-- event to `apply`. The indexer is a list of answers to the subscribe requests, each a function of
-- the id that the request resumes from; an answer that opens a subscription lists what the loop's
-- reads give, and its end is the end of the stream.
pub mod Bounds
pub mod Order
pub mod Tests
use midnight_rs.Base.{
  ℕ, ◌+◌, Bool, true, false, ◌&&◌, not, Option, none, some, List, [], ◌∷◌, ltb, ◌==◌, if◌then◌else◌,
  ℤ, pos, leb_ℤ, eqb_ℤ, Result, ok, err,
}
use midnight_rs.Wallet.Types.{
  LedgerVersion, ltb_version, IndexerError, is_retryable, StreamKind, SyncFailure, WalletError,
  Codec, of_tagged,
}
use midnight_rs.Wallet.Replay.Policy.{
  reconnect_max_retries, progress_interval, resume_id, last_applied_before, reconnect_delay,
  already_applied, order_regression, due, Channel, send_progress,
}

-- `LedgerEventMessage`
pub record Message : Type 0 where
  pub id : ℤ
  pub raw : List ℕ
  pub max_id : ℤ

-- What one read of the subscription gives. A message comes with the instant of its handling and the
-- state of the progress channel then.
pub data Frame : Type 0 where
  message : Message → ℕ → Option Channel → Frame
  dropped : IndexerError → Frame
  timed_out : Frame

-- The answer to a subscribe request.
pub data Connection : Type 0 where
  refused : IndexerError → Connection
  opened : List Frame → Connection

-- `LedgerReplay`
pub record LedgerReplay : Type 0 where
  pub last_id : ℤ
  pub later_ledger : Option (ℤ × LedgerVersion)

-- The arguments of a replay; `apply` works on the caller's state `W`, which it may change also
-- where it fails.
pub record Setup (W : Type 0) : Type 0 where
  pub codec : Codec
  pub kind : StreamKind
  pub ledger : LedgerVersion
  pub start_id : ℤ
  pub resuming : Bool
  pub apply : ℤ → List ℕ → LedgerVersion → W → W × Result WalletError (Unit {0})

-- The loop's variables, the caller's state, and the back-off waited so far.
pub record State (W : Type 0) : Type 0 where
  pub last_id : ℤ
  pub count : ℕ
  pub last_report : Option ℕ
  pub retries : ℕ
  pub slept : ℕ
  pub world : W

-- How a piece of the loop ends: `stay` reads on with the highest id of this connection,
-- `resubscribe` is `continue 'reconnect`, `done` is `break 'reconnect`.
pub data Flow (W : Type 0) : Type 0 where
  stay : Option ℤ → State W → Flow W
  resubscribe : State W → Flow W
  done : Option (ℤ × LedgerVersion) → State W → Flow W
  fail : WalletError → State W → Flow W

module _ {W : Type 0} where
  -- What follows where a read goes on with the connection, or asks for another one.
  abbrev pub on_stay : Flow W → (Option ℤ → State W → Flow W) → Flow W
  on_stay (Flow.stay high s) k = k high s
  on_stay (Flow.resubscribe s) k = Flow.resubscribe s
  on_stay (Flow.done later s) k = Flow.done later s
  on_stay (Flow.fail e s) k = Flow.fail e s

  abbrev pub on_resubscribe : Flow W → (State W → Flow W) → Flow W
  on_resubscribe (Flow.stay high s) k = Flow.stay high s
  on_resubscribe (Flow.resubscribe s) k = k s
  on_resubscribe (Flow.done later s) k = Flow.done later s
  on_resubscribe (Flow.fail e s) k = Flow.fail e s

  -- One more reconnect after its back-off, if any is left.
  unfoldable pub back_off : State W → WalletError → Flow W
  back_off s e =
      if ltb s.retries reconnect_max_retries
      then Flow.resubscribe
          (record s { retries = s.retries + 1; slept = s.slept + reconnect_delay (s.retries + 1) })
      else Flow.fail e s

  -- A failed subscribe or read.
  unfoldable pub on_error : State W → IndexerError → Flow W
  unfolding back_off
  on_error s e =
      let gave_up = WalletError.indexer (is_retryable e) e in
      if is_retryable e then back_off s gave_up else Flow.fail gave_up s

  -- The rest of a message's handling, once `apply` has consumed it.
  unfoldable pub consumed : Message → ℕ → Option Channel → StreamKind → State W → W → Flow W
  consumed msg now channel kind s world =
      let (report, last_report) = due progress_interval s.last_report now in
      let s' : State W = record {
        last_id = msg.id;
        count = s.count + 1;
        last_report = last_report;
        retries = 0;
        slept = s.slept;
        world = world;
      } in
      if report && not (send_progress channel)
      then Flow.fail (WalletError.sync (SyncFailure.receiver_dropped kind)) s'
      else if leb_ℤ msg.max_id msg.id
      then Flow.done none s'
      else Flow.stay (some msg.id) s'

  module _ (setup : Setup W) where
    open setup use {codec, kind, ledger, start_id, resuming, apply}

    -- A new event: decode it, stop before a later generation, or hand it to `apply`.
    unfoldable pub deliver : Message → ℕ → Option Channel → State W → Flow W
    deliver msg now channel s = elim (codec.decode_hex msg.raw) [
      | none ↦ Flow.fail (WalletError.sync (SyncFailure.decode_event kind)) s
      | some raw ↦ elim (of_tagged codec raw) [
        | err e ↦ Flow.fail e s
        | ok event_ledger ↦
            if ltb_version ledger event_ledger
            then Flow.done (some (msg.id, event_ledger)) s
            else let (world, applied) = apply msg.id raw event_ledger s.world in
              elim applied [
                | err e ↦ Flow.fail e (record s { world = world })
                | ok _ ↦ consumed msg now channel kind s world
              ]
      ]
    ]

    unfoldable pub on_message : Message → ℕ → Option Channel → Option ℤ → State W → Flow W
    on_message msg now channel conn_high s = elim (order_regression msg.id conn_high) [
      | some prev ↦ Flow.fail (WalletError.event_order kind msg.id prev) s
      | none ↦
          if eqb_ℤ msg.max_id (pos 0)
          then Flow.done none s
          else if already_applied msg.id s.last_id start_id (ltb 0 s.count)
          then (if leb_ℤ msg.max_id msg.id then Flow.done none s else Flow.stay (some msg.id) s)
          else deliver msg now channel s
    ]

    -- A resume that has applied nothing reads silence as the tip.
    unfoldable pub on_frame : Frame → Option ℤ → State W → Flow W
    on_frame (Frame.message msg now channel) conn_high s = on_message msg now channel conn_high s
    on_frame (Frame.dropped e) conn_high s = on_error s e
    on_frame Frame.timed_out conn_high s =
        if resuming && s.count == 0
        then Flow.done none s
        else Flow.fail (WalletError.indexer true IndexerError.transport) s

    -- The stream ended.
    unfoldable pub on_end : State W → Flow W
    on_end s =
        if resuming && s.count == 0
        then Flow.done none s
        else back_off s (WalletError.indexer true IndexerError.transport)

    -- The reads of one connection.
    unfoldable pub read_frames : List Frame → Option ℤ → State W → Flow W
    read_frames [] conn_high s = on_end s
    read_frames (f ∷ fs) conn_high s = on_stay (on_frame f conn_high s) (read_frames fs)

    unfoldable pub connect : Connection → State W → Flow W
    connect (Connection.refused e) s = on_error s e
    connect (Connection.opened fs) s = read_frames fs none s

    -- The outer loop. `resubscribe` at the end: the replay waits for an answer that is not listed.
    unfoldable pub run : List (ℤ → Connection) → State W → Flow W
    run [] s = Flow.resubscribe s
    run (answer ∷ answers) s =
        on_resubscribe (connect (answer (resume_id s.count s.last_id)) s) (run answers)

    abbrev pub start : W → State W
    start world = record {
      last_id = last_applied_before start_id;
      count = 0;
      last_report = none;
      retries = 0;
      slept = 0;
      world = world;
    }

    unfoldable pub replay_ledger_events : List (ℤ → Connection) → W → Flow W
    replay_ledger_events answers world = run answers (start world)
