-- ===== src/Exchange/Pacing.antt =====
-- src/bin/exchange.rs: the cadence of the synthetic participants, and the wait for the next order.
-- Times are in nanoseconds. `now` is the reading of `elapsed()`, `reset` that of `Instant::now()`.
use rust_hotpath_ipc.Prelude.{
  ◌>>=◌, ℕ, ◌+◌, ◌-◌, ◌*◌, ◌<◌, ◌≡◌, ◌⊎◌, Bool, ◌||◌, Option, none, some, List, [], ◌∷◌, arith, leb,
  ◌==◌, if◌then◌else◌,
}
use rust_hotpath_ipc.Float.{F64}
use rust_hotpath_ipc.Messages.{OrderCommand}
use rust_hotpath_ipc.Exchange.{Exchange, Published, turn}

-- `Duration::from_micros(tick_us)`.
abbrev pub period : ℕ → ℕ
period tick_us = tick_us * 1_000

unfoldable pub is_due : ℕ → ℕ → Bool
is_due tick_us elapsed = tick_us == 0 || leb (period tick_us) elapsed

unfoldable pub timeout : ℕ → ℕ → ℕ
timeout tick_us elapsed =
    let until_next = period tick_us - elapsed in if until_next == 0 then 1_000 else until_next

-- How long a turn waits for an order in waitset mode, if it has nothing to do; `later` is a second
-- reading of `elapsed()`.
unfoldable pub wait_of : ℕ → ℕ → ℕ → List OrderCommand → Option ℕ
unfolding is_due timeout
wait_of tick_us elapsed later (cmd ∷ cmds) = none
wait_of tick_us elapsed later [] =
    if is_due tick_us elapsed then none else some (timeout tick_us later)

-- A turn that waits does so until the next round is due, or for a microsecond if it is due by then.
pub wait_of-due :
    (tick_us elapsed later wait : ℕ)
    → wait_of tick_us elapsed later [] ≡ some wait
    → (0 < wait) × ((later + wait ≡ period tick_us) ⊎ (wait ≡ 1_000))
unfolding wait_of is_due timeout
wait_of-due tick_us elapsed later wait h = ground arith

module _ (F : F64) (rdtsc : ℕ → ℕ) where
  open F use {Float}

  -- A turn at `now`, after a round at `last`: also the time of the last round after it.
  unfoldable pub paced_turn :
      ℕ → ℕ → ℕ → ℕ → List OrderCommand → Exchange Float → Option (Exchange Float × Published × ℕ)
  unfolding is_due turn
  paced_turn tick_us last now reset cmds x = do
    let due = is_due tick_us (now - last)
    (x', out) ← turn F rdtsc cmds due x
    some (x', out, if due then reset else last)
