-- ===== src/ClassicSignal.antt =====
-- classic_api/classic_signal/test.c: a task waits for a signal that a timer sends to it.
-- A round of the loop reads the clock, whose ticks are a 32-bit count, and then the flag that the
-- handler sets; the readings are a list.
mod Deadline
mod Tests
use rtems_examples.Common.{
  ℕ, ◌+◌, ◌-◌, ◌%◌, ◌^◌, Bool, true, false, List, [], ◌∷◌, ltb, if◌then◌else◌,
}

-- How `Init` ends; at the end of the readings it is still in its loop.
pub data Outcome : Type 0 where
  signal_done : Outcome
  signal_missed : Outcome
  in_loop : Outcome

-- `now - start` of two `rtems_interval`s.
pub interval : ℕ → ℕ → ℕ
interval start now = (now + (2 ^ 32 - start)) % 2 ^ 32

pub wait_loop : ℕ → List (ℕ × Bool) → Outcome
unfolding interval
wait_loop start [] = in_loop
wait_loop start ((now, signal_processed) ∷ readings) =
    let rest = wait_loop start readings in
    if ltb 100 (interval start now)
    then signal_missed
    else if signal_processed
    then signal_done
    else rest
