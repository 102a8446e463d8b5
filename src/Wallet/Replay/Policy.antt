-- ===== src/Wallet/Replay/Policy.antt =====
-- midnight-wallet/src/replay.rs, the policy of the replay loops: where a replay resumes, how it backs
-- off, which events it skips or refuses, and when it reports. Times are in milliseconds.
use midnight_rs.Base.{
  ℕ, ◌-◌, ◌*◌, ◌^◌, Bool, true, false, ◌&&◌, ◌||◌, Option, none, some, ltb, if◌then◌else◌, ℤ, pos,
  ltb_ℤ, leb_ℤ, max_ℤ, saturating_pred, wrapping_suc,
}

abbrev pub reconnect_max_retries : ℕ
reconnect_max_retries = 4

abbrev pub reconnect_base_delay : ℕ
reconnect_base_delay = 250

-- `progress_interval`, one second
abbrev pub progress_interval : ℕ
progress_interval = 1000

unfoldable pub resume_id : ℕ → ℤ → ℤ
resume_id applied_this_replay last_id =
    if ltb 0 applied_this_replay then wrapping_suc last_id else last_id

unfoldable pub last_applied_before : ℤ → ℤ
last_applied_before start_id = max_ℤ (saturating_pred start_id) (pos 0)

-- `2u32.saturating_pow(n)`
abbrev saturating_pow2 : ℕ → ℕ
saturating_pow2 n = if ltb n 32 then 2 ^ n else 2 ^ 32 - 1

unfoldable pub reconnect_delay : ℕ → ℕ
reconnect_delay retry = reconnect_base_delay * saturating_pow2 (retry - 1)

unfoldable pub event_timeout : Bool → ℕ
event_timeout resuming = if resuming then 10000 else 30000

unfoldable pub already_applied : ℤ → ℤ → ℤ → Bool → Bool
already_applied msg_id last_id start_id applied_any =
    (applied_any || ltb_ℤ (pos 0) start_id) && leb_ℤ msg_id last_id

unfoldable pub order_regression : ℤ → Option ℤ → Option ℤ
order_regression msg_id none = none
order_regression msg_id (some high) = if ltb_ℤ msg_id high then some high else none

-- `ProgressPacer::due`, on the time of the last report: whether to report, and the new time.
unfoldable pub due : ℕ → Option ℕ → ℕ → Bool × Option ℕ
due interval none now = (true, some now)
due interval (some last) now =
    if ltb (now - last) interval then (false, some last) else (true, some now)

-- The outcome of `try_send` on the progress channel.
pub data Channel : Type 0 where
  taken full closed : Channel

-- Whether the consumer is still there; `none` is a replay with no progress channel.
unfoldable pub send_progress : Option Channel → Bool
send_progress (some Channel.closed) = false
send_progress _ = true
