-- ===== src/Wallet/Replay/Ledger/Bounds.antt =====
-- crates/midnight-wallet/src/replay.rs: how many answers `replay_ledger_events` asks for, and how long it
-- backs off, measured by the events that it has applied.
use midnight_rs.Base.{
  ℕ, zero, suc, ◌+◌, ◌-◌, ◌*◌, ◌^◌, ◌≤◌, ◌<◌, ◌≡◌, refl, Bool, Option, List, [], ◌∷◌, ℤ, length,
  arith,
}
use midnight_rs.Wallet.Types.{StreamKind, WalletError, IndexerError}
use midnight_rs.Wallet.Replay.Policy.{Channel, reconnect_delay, resume_id}
use midnight_rs.Wallet.Replay.Ledger.{
  Message, Frame, Connection, Setup, State, Flow, on_stay, on_resubscribe, back_off, on_error,
  consumed, deliver, on_message, on_frame, on_end, read_frames, connect, run, start,
  replay_ledger_events,
}

-- The back-off of `retries` failures in a row.
abbrev pub backed_off : ℕ → ℕ
backed_off retries = 250 * (2 ^ retries - 1)

backed_off-suc : (r : ℕ) → r < 4 → backed_off r + reconnect_delay (r + 1) ≡ backed_off (r + 1)
unfolding reconnect_delay
backed_off-suc zero h = refl
backed_off-suc (suc zero) h = refl
backed_off-suc (suc (suc zero)) h = refl
backed_off-suc (suc (suc (suc zero))) h = refl
backed_off-suc (suc (suc (suc (suc r)))) h = absurd (omega arith)

backed_off-le : (r : ℕ) → r ≤ 4 → backed_off r ≤ 3750
backed_off-le zero h = omega arith
backed_off-le (suc zero) h = omega arith
backed_off-le (suc (suc zero)) h = omega arith
backed_off-le (suc (suc (suc zero))) h = omega arith
backed_off-le (suc (suc (suc (suc zero)))) h = omega arith
backed_off-le (suc (suc (suc (suc (suc r))))) h = absurd (omega arith)

module _ {W : Type 0} where
  -- Within the bound, and not waited longer than the failures since each applied event allow.
  pub record IsPaced (s : State W) : Type 0 where
    pub bounded : s.retries ≤ 4
    pub waited : s.slept ≤ backed_off s.retries + 3750 * s.count

  -- It never falls, and each reconnect raises it.
  abbrev pub effort : State W → ℕ
  effort s = s.retries + 4 * s.count

  -- The state that a piece of the loop ends in.
  abbrev pub end_state : Flow W → State W
  end_state (Flow.stay high s) = s
  end_state (Flow.resubscribe s) = s
  end_state (Flow.done later s) = s
  end_state (Flow.fail e s) = s

  -- The number of reconnects that a piece of the loop asks for.
  abbrev reconnects : Flow W → ℕ
  reconnects (Flow.resubscribe s) = 1
  reconnects _ = 0

  record Grows (s : State W) (r : Flow W) : Type 0 where
    paced : IsPaced (end_state r)
    more : effort s + reconnects r ≤ effort (end_state r)

  on_stay-Grows :
      (s : State W) (r : Flow W) (k : Option ℤ → State W → Flow W)
      → Grows s r
      → ((high : Option ℤ) (s' : State W) → IsPaced s' → Grows s' (k high s'))
      → Grows s (on_stay r k)
  on_stay-Grows s (Flow.stay high s') k g next = ground (arith, next high s' g.paced)
  on_stay-Grows s (Flow.resubscribe s') k g next = g
  on_stay-Grows s (Flow.done later s') k g next = g
  on_stay-Grows s (Flow.fail e s') k g next = g

  -- The answers used by a replay that waits for one more.
  abbrev pub used : Flow W → ℕ → ℕ
  used (Flow.resubscribe s) n = n
  used _ n = 0

  record Runs (n : ℕ) (s : State W) (r : Flow W) : Type 0 where
    paced : IsPaced (end_state r)
    more : effort s + used r n ≤ effort (end_state r)

  Runs-suc :
      (n : ℕ) (s s' : State W) (r : Flow W)
      → effort s + 1 ≤ effort s'
      → Runs n s' r
      → Runs (suc n) s r
  Runs-suc n s s' (Flow.resubscribe t) g h = ground arith
  Runs-suc n s s' (Flow.stay high t) g h = ground arith
  Runs-suc n s s' (Flow.done later t) g h = ground arith
  Runs-suc n s s' (Flow.fail e t) g h = ground arith

  on_resubscribe-Runs :
      (n : ℕ) (s : State W) (r : Flow W) (k : State W → Flow W)
      → Grows s r
      → ((s' : State W) → IsPaced s' → Runs n s' (k s'))
      → Runs (suc n) s (on_resubscribe r k)
  on_resubscribe-Runs n s (Flow.resubscribe s') k g next =
      Runs-suc n s s' (k s') g.more (next s' g.paced)
  on_resubscribe-Runs n s (Flow.stay high s') k g next = ground arith
  on_resubscribe-Runs n s (Flow.done later s') k g next = ground arith
  on_resubscribe-Runs n s (Flow.fail e s') k g next = ground arith

  module _ (s : State W) (paced : IsPaced s) where
    back_off-Grows : (e : WalletError) → Grows s (back_off s e)
    unfolding back_off
    back_off-Grows e = ground (arith, backed_off-suc s.retries)

    on_error-Grows : (e : IndexerError) → Grows s (on_error s e)
    unfolding on_error
    on_error-Grows e = ground (arith, backed_off-suc s.retries)

    consumed-Grows :
        (msg : Message) (now : ℕ) (channel : Option Channel) (kind : StreamKind) (world : W)
        → Grows s (consumed msg now channel kind s world)
    unfolding consumed
    consumed-Grows msg now channel kind world = ground (arith, backed_off-le s.retries)

  module _ (setup : Setup W) where
    deliver-Grows :
        (msg : Message) (now : ℕ) (channel : Option Channel) (s : State W)
        → IsPaced s
        → Grows s (deliver setup msg now channel s)
    unfolding deliver
    deliver-Grows msg now channel s h = grind (arith, consumed-Grows s h msg now channel)

    on_message-Grows :
        (msg : Message) (now : ℕ) (channel : Option Channel) (high : Option ℤ) (s : State W)
        → IsPaced s
        → Grows s (on_message setup msg now channel high s)
    unfolding on_message
    on_message-Grows msg now channel high s h = ground (arith, deliver-Grows msg now channel s h)

    on_frame-Grows :
        (f : Frame) (high : Option ℤ) (s : State W) → IsPaced s → Grows s (on_frame setup f high s)
    unfolding on_frame
    on_frame-Grows (Frame.message msg now channel) high s h =
        on_message-Grows msg now channel high s h
    on_frame-Grows (Frame.dropped e) high s h = on_error-Grows s h e
    on_frame-Grows Frame.timed_out high s h = ground arith

    on_end-Grows : (s : State W) → IsPaced s → Grows s (on_end setup s)
    unfolding on_end
    on_end-Grows s h =
        ground (arith, back_off-Grows s h (WalletError.indexer Bool.true IndexerError.transport))

    read_frames-Grows :
        (fs : List Frame) (high : Option ℤ) (s : State W)
        → IsPaced s
        → Grows s (read_frames setup fs high s)
    unfolding read_frames
    read_frames-Grows [] high s h = on_end-Grows s h
    read_frames-Grows (f ∷ fs) high s h =
        on_stay-Grows s _ _ (on_frame-Grows f high s h) (read_frames-Grows fs)

    connect-Grows : (c : Connection) (s : State W) → IsPaced s → Grows s (connect setup c s)
    unfolding connect
    connect-Grows (Connection.refused e) s h = on_error-Grows s h e
    connect-Grows (Connection.opened fs) s h = read_frames-Grows fs Option.none s h

    run-Grows :
        (answers : List (ℤ → Connection)) (s : State W)
        → IsPaced s
        → Runs (length answers) s (run setup answers s)
    unfolding run
    run-Grows [] s h = record { paced = h; more = omega arith }
    run-Grows (answer ∷ answers) s h =
        on_resubscribe-Runs (length answers) s _ _
          (connect-Grows (answer (resume_id s.count s.last_id)) s h) (run-Grows answers)

    -- However the indexer answers: a replay that has used n answers and waits for another has
    -- n ≤ 4 * count + 4, where count is the number of events that it applied; it has never counted
    -- more than four failures in a row; and all its back-offs together are at most
    -- 3750 * (count + 1) milliseconds.
    pub replay_bounded :
        (answers : List (ℤ → Connection)) (world : W)
        → let r = replay_ledger_events setup answers world in
          (used r (length answers) ≤ 4 * (end_state r).count + 4)
          × ((end_state r).retries ≤ 4)
          × ((end_state r).slept ≤ 3750 * ((end_state r).count + 1))
    unfolding replay_ledger_events
    replay_bounded answers world =
        let s = start setup world in
        let r = run setup answers s in
        let g = run-Grows answers s (record { bounded = omega arith; waited = omega arith }) in
        let p = g.paced in
        (
          omega (arith, p.bounded, g.more),
          p.bounded,
          omega (arith, p.waited, p.bounded, backed_off-le (end_state r).retries p.bounded),
        )
