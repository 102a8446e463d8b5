-- ===== src/Wallet/Replay/Ledger/Tests.antt =====
-- Runs of the ledger-event replay on small inputs, and the theorems there.
use Prim.Native.String.{String}
use midnight_rs.Base.{
  ℕ, ◌+◌, ◌*◌, ◌≤◌, ◌≡◌, refl, false, true, Option, none, some, List, [], ◌∷◌, ℤ, pos, ok, length,
}
use midnight_rs.Wallet.Types.{
  LedgerVersion, IndexerError, StreamKind, Codec, of_tagged, is_retryable,
}
use midnight_rs.Wallet.Replay.Policy.{
  resume_id, last_applied_before, reconnect_delay, already_applied, order_regression, due,
  send_progress,
}
use midnight_rs.Wallet.Replay.Ledger.{
  Frame, Connection, Setup, Flow, back_off, on_error, consumed, deliver, on_message, on_frame,
  on_end, read_frames, connect, run, replay_ledger_events,
}
use midnight_rs.Wallet.Replay.Ledger.Bounds.{end_state, used, replay_bounded}
use midnight_rs.Wallet.Replay.Ledger.Order.{recording, latest, Rises, replay-Rises}

-- The tag is the first byte, 8 or 9.
abbrev first_byte_tag : List ℕ → Option String
first_byte_tag [] = none
first_byte_tag (b ∷ _) = if_eight b
  where
    if_eight : ℕ → Option String
    if_eight b = elim (Prim.Native.Nat.compare b 8) [
      | Prim.Native.Nat.Ordering.eq ↦ some "event8"
      | _ ↦ some "event9"
    ]

abbrev codec : Codec
codec = record {
  decode_hex = λ raw. some raw;
  peek_tag = first_byte_tag;
  tag8 = "event8";
  tag9 = "event9";
}

-- A wallet in ledger 8 that counts the events it is handed.
abbrev counting : Setup ℕ
counting = record {
  codec = codec;
  kind = StreamKind.zswap;
  ledger = LedgerVersion.v8;
  start_id = pos 0;
  resuming = false;
  apply = λ id raw version n. (n + 1, ok tt);
}

abbrev event : ℕ → ℕ → Frame
event version id = Frame.message (record { id = pos id; raw = version ∷ []; max_id = pos 5 }) 0 none

-- Two events, a drop, a re-delivery and an event of ledger 9.
abbrev answers : List (ℤ → Connection)
answers =
    (λ _. Connection.opened (event 8 1 ∷ event 8 2 ∷ Frame.dropped IndexerError.transport ∷ []))
    ∷ (λ _. Connection.refused IndexerError.transport)
    ∷ (λ _. Connection.opened (event 8 2 ∷ event 8 3 ∷ event 9 4 ∷ []))
    ∷ []

run_answers :
    replay_ledger_events counting answers 0
    ≡ Flow.done (some (pos 4, LedgerVersion.v9)) (record {
      last_id = pos 3;
      count = 3;
      last_report = some 0;
      retries = 0;
      slept = 750;
      world = 3;
    })
unfolding replay_ledger_events run connect read_frames on_frame on_end on_message deliver consumed
    on_error back_off of_tagged is_retryable resume_id last_applied_before reconnect_delay
    already_applied order_regression due send_progress midnight_rs.Base.Int.◌-ℤ◌
    midnight_rs.Base.Int.◌+ℤ◌
run_answers = refl

replay_bounded_example :
    let r = replay_ledger_events counting answers 0 in
    (used r 3 ≤ 4 * (end_state r).count + 4)
    × ((end_state r).retries ≤ 4)
    × ((end_state r).slept ≤ 3750 * ((end_state r).count + 1))
replay_bounded_example = replay_bounded counting answers 0

replay-Rises_example :
    let s = end_state (replay_ledger_events (recording counting) answers ([], 0)) in
    (s.count ≡ length s.world.0)
    × (latest s.world.0 s.last_id ≡ s.last_id)
    × Rises LedgerVersion.v8 s.world.0
replay-Rises_example = replay-Rises counting answers 0
