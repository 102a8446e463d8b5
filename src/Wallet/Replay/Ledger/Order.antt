-- ===== src/Wallet/Replay/Ledger/Order.antt =====
-- crates/midnight-wallet/src/replay.rs: the events that `replay_ledger_events` hands to `apply`.
use midnight_rs.Base.{
  ℕ, ◌+◌, ◌≡◌, refl, true, false, Option, none, List, [], ◌∷◌, ◌⊎◌, arith, ℤ, pos, ◌<ℤ◌, ◌≤ℤ◌,
  Result, ok, err, ltb, length,
}
use midnight_rs.Wallet.Types.{LedgerVersion, ltb_version, WalletError, IndexerError, StreamKind}
use midnight_rs.Wallet.Replay.Policy.{Channel, already_applied, resume_id}
use midnight_rs.Wallet.Replay.Ledger.{
  Message, Frame, Connection, Setup, State, Flow, on_stay, on_resubscribe, back_off, on_error,
  consumed, deliver, on_message, on_frame, on_end, read_frames, connect, run, start,
  replay_ledger_events,
}
use midnight_rs.Wallet.Replay.Ledger.Bounds.{end_state}

-- The invariant rule: `P count last_id world` holds at the end of a replay, if it holds at the start,
-- and `apply` keeps it, where it fails too. A step is told that the event is new: its id is above the
-- last one, or nothing was applied yet and the replay started at or before id 0.
module _ {W : Type 0} (setup : Setup W) (P : ℕ → ℤ → W → Type 0) where
  abbrev Holds : State W → Type 0
  Holds s = P s.count s.last_id s.world

  abbrev Ends : Flow W → Type 0
  Ends r = Holds (end_state r)

  abbrev IsNew : ℕ → ℤ → ℤ → Type 0
  IsNew count last_id id = (last_id <ℤ id) ⊎ ((count ≡ 0) × (setup.start_id ≤ℤ pos 0))

  abbrev Keeps : Type 0
  Keeps =
      (count : ℕ) (last_id id : ℤ) (raw : List ℕ) (version : LedgerVersion) (world : W)
      → IsNew count last_id id
      → ltb_version setup.ledger version ≡ false
      → (setup.apply id raw version world).1 ≡ ok tt
      → P count last_id world
      → P (count + 1) id (setup.apply id raw version world).0

  abbrev Survives : Type 0
  Survives =
      (count : ℕ) (last_id id : ℤ) (raw : List ℕ) (version : LedgerVersion) (world : W)
      (e : WalletError)
      → (setup.apply id raw version world).1 ≡ err e
      → P count last_id world
      → P count last_id (setup.apply id raw version world).0

  back_off-Ends : (s : State W) (e : WalletError) → Holds s → Ends (back_off s e)
  unfolding back_off
  back_off-Ends s e h = ground arith

  on_error-Ends : (s : State W) (e : IndexerError) → Holds s → Ends (on_error s e)
  unfolding on_error
  on_error-Ends s e h = ground arith

  on_end-Ends : (s : State W) → Holds s → Ends (on_end setup s)
  unfolding on_end
  on_end-Ends s h =
      ground (arith, back_off-Ends s (WalletError.indexer true IndexerError.transport) h)

  consumed-Ends :
      (msg : Message) (now : ℕ) (channel : Option Channel) (kind : StreamKind) (s : State W)
      (world : W)
      → P (s.count + 1) msg.id world
      → Ends (consumed msg now channel kind s world)
  unfolding consumed
  consumed-Ends msg now channel kind s world h = ground arith

  module _ (keeps : Keeps) (survives : Survives) where
    deliver-Ends :
        (msg : Message) (now : ℕ) (channel : Option Channel) (s : State W)
        → IsNew s.count s.last_id msg.id
        → Holds s
        → Ends (deliver setup msg now channel s)
    unfolding deliver
    deliver-Ends msg now channel s new h = grind (arith, keeps, survives, consumed-Ends)

    IsNew-unless_applied :
        (id : ℤ) (s : State W)
        → already_applied id s.last_id setup.start_id (ltb 0 s.count) ≡ false
        → IsNew s.count s.last_id id
    unfolding already_applied
    IsNew-unless_applied id s h = ground arith

    on_message-Ends :
        (msg : Message) (now : ℕ) (channel : Option Channel) (high : Option ℤ) (s : State W)
        → Holds s
        → Ends (on_message setup msg now channel high s)
    unfolding on_message
    on_message-Ends msg now channel high s h = ground (
      arith,
      IsNew-unless_applied msg.id s,
      λ (new : IsNew s.count s.last_id msg.id). deliver-Ends msg now channel s new h,
    )

    on_frame-Ends :
        (f : Frame) (high : Option ℤ) (s : State W) → Holds s → Ends (on_frame setup f high s)
    unfolding on_frame
    on_frame-Ends (Frame.message msg now channel) high s h =
        on_message-Ends msg now channel high s h
    on_frame-Ends (Frame.dropped e) high s h = on_error-Ends s e h
    on_frame-Ends Frame.timed_out high s h = ground arith

    on_stay-Ends :
        (r : Flow W) (k : Option ℤ → State W → Flow W)
        → Ends r
        → ((high : Option ℤ) (s : State W) → Holds s → Ends (k high s))
        → Ends (on_stay r k)
    on_stay-Ends (Flow.stay high s) k h next = next high s h
    on_stay-Ends (Flow.resubscribe s) k h next = h
    on_stay-Ends (Flow.done later s) k h next = h
    on_stay-Ends (Flow.fail e s) k h next = h

    read_frames-Ends :
        (fs : List Frame) (high : Option ℤ) (s : State W)
        → Holds s
        → Ends (read_frames setup fs high s)
    unfolding read_frames
    read_frames-Ends [] high s h = on_end-Ends s h
    read_frames-Ends (f ∷ fs) high s h =
        on_stay-Ends (on_frame setup f high s) (read_frames setup fs) (on_frame-Ends f high s h)
          (read_frames-Ends fs)

    connect-Ends : (c : Connection) (s : State W) → Holds s → Ends (connect setup c s)
    unfolding connect
    connect-Ends (Connection.refused e) s h = on_error-Ends s e h
    connect-Ends (Connection.opened fs) s h = read_frames-Ends fs none s h

    on_resubscribe-Ends :
        (r : Flow W) (k : State W → Flow W)
        → Ends r
        → ((s : State W) → Holds s → Ends (k s))
        → Ends (on_resubscribe r k)
    on_resubscribe-Ends (Flow.stay high s) k h next = h
    on_resubscribe-Ends (Flow.resubscribe s) k h next = next s h
    on_resubscribe-Ends (Flow.done later s) k h next = h
    on_resubscribe-Ends (Flow.fail e s) k h next = h

    pub run-Ends :
        (answers : List (ℤ → Connection)) (s : State W) → Holds s → Ends (run setup answers s)
    unfolding run
    run-Ends [] s h = h
    run-Ends (answer ∷ answers) s h =
        let c = answer (resume_id s.count s.last_id) in
        on_resubscribe-Ends (connect setup c s) (run setup answers) (connect-Ends c s h)
          (run-Ends answers)

-- `apply` with a log, latest first, of the events that it consumes.
abbrev pub Log : Type 0
Log = List (ℤ × LedgerVersion)

module _ {W : Type 0} where
  abbrev logged :
      ℤ
      → LedgerVersion
      → Log
      → W × Result WalletError (Unit {0})
      → (Log × W) × Result WalletError (Unit {0})
  logged id version log (w, ok u) = (((id, version) ∷ log, w), ok u)
  logged id version log (w, err e) = ((log, w), err e)

  abbrev pub recording : Setup W → Setup (Log × W)
  recording setup = record {
    codec = setup.codec;
    kind = setup.kind;
    ledger = setup.ledger;
    start_id = setup.start_id;
    resuming = setup.resuming;
    apply = λ id raw version state. logged id version state.0 (setup.apply id raw version state.1);
  }

-- The latest id of the log, or the given one where the log is empty.
abbrev pub latest : Log → ℤ → ℤ
latest [] id = id
latest (e ∷ log) id = e.0

abbrev IsBelow : Log → ℤ → Type 0
IsBelow [] id = Unit
IsBelow (e ∷ log) id = e.0 <ℤ id

-- The ids of the log rise, and no event is of a generation later than `ledger`.
abbrev pub Rises : LedgerVersion → Log → Type 0
Rises ledger [] = Unit
Rises ledger (e ∷ log) = (ltb_version ledger e.1 ≡ false) × IsBelow log e.0 × Rises ledger log

module _ {W : Type 0} (setup : Setup W) where
  record Logged (count : ℕ) (last_id : ℤ) (state : Log × W) : Type 0 where
    counted : count ≡ length state.0
    last : latest state.0 last_id ≡ last_id
    rises : Rises setup.ledger state.0

  Logged-push :
      (count : ℕ) (last_id id : ℤ) (version : LedgerVersion) (log : Log) (w w' : W)
      → (last_id <ℤ id) ⊎ ((count ≡ 0) × (setup.start_id ≤ℤ pos 0))
      → ltb_version setup.ledger version ≡ false
      → Logged count last_id (log, w)
      → Logged (count + 1) id ((id, version) ∷ log, w')
  Logged-push count last_id id version [] w w' new old h = ground arith
  Logged-push count last_id id version ((before, v) ∷ log) w w' new old h = ground arith

  logged-Keeps :
      (count : ℕ) (last_id id : ℤ) (version : LedgerVersion) (log : Log) (w : W)
      (r : W × Result WalletError (Unit {0}))
      → (last_id <ℤ id) ⊎ ((count ≡ 0) × (setup.start_id ≤ℤ pos 0))
      → ltb_version setup.ledger version ≡ false
      → (logged id version log r).1 ≡ ok tt
      → Logged count last_id (log, w)
      → Logged (count + 1) id (logged id version log r).0
  logged-Keeps count last_id id version log w (w', ok u) new old done h =
      Logged-push count last_id id version log w w' new old h
  logged-Keeps count last_id id version log w (w', err e) new old done h = cc

  logged-Survives :
      (count : ℕ) (last_id id : ℤ) (version : LedgerVersion) (log : Log) (w : W) (e : WalletError)
      (r : W × Result WalletError (Unit {0}))
      → (logged id version log r).1 ≡ err e
      → Logged count last_id (log, w)
      → Logged count last_id (logged id version log r).0
  logged-Survives count last_id id version log w e (w', ok u) failed h = cc
  logged-Survives count last_id id version log w e (w', err e') failed h = record {
    counted = h.counted;
    last = h.last;
    rises = h.rises;
  }

  -- However the indexer answers, and however the replay ends: the events that `apply` consumed, which
  -- the log lists latest first, are as many as `count`, their ids rise strictly, the latest of them is
  -- `last_id`, and none is of a later generation than the replay's.
  pub replay-Rises :
      (answers : List (ℤ → Connection)) (world : W)
      → let s = end_state (replay_ledger_events (recording setup) answers ([], world)) in
        (s.count ≡ length s.world.0)
        × (latest s.world.0 s.last_id ≡ s.last_id)
        × Rises setup.ledger s.world.0
  unfolding replay_ledger_events
  replay-Rises answers world =
      let h =
        run-Ends (recording setup) Logged
          (λ count last_id id raw version (log, w) new old done h.
            logged-Keeps count last_id id version log w (setup.apply id raw version w) new old done
              h)
          (λ count last_id id raw version (log, w) e failed h.
            logged-Survives count last_id id version log w e (setup.apply id raw version w) failed
              h)
          answers (start (recording setup) ([], world))
          (record { counted = refl; last = refl; rises = tt }) in
      (h.counted, h.last, h.rises)
