-- ===== src/ClassicSignal/Deadline.antt =====
-- classic_api/classic_signal/test.c: the verdict of the task, also where the count of ticks wraps
-- round while it waits.
use rtems_examples.Common.{
  ℕ, ◌+◌, ◌-◌, ◌%◌, ◌^◌, ◌≤◌, ◌<◌, Bool, true, false, List, [], ◌∷◌, ltb, if◌then◌else◌, ◌≡◌, ◌≢◌,
  refl, arith,
}
use mathlib.Core.List.{map}
use rtems_examples.Common.Lists.{All}
use rtems_examples.ClassicSignal.{Outcome, signal_done, signal_missed, in_loop, interval, wait_loop}

-- The ticks as the task reads them.
pub as_read : ℕ × Bool → ℕ × Bool
as_read (tick, signal_processed) = (tick % 2 ^ 32, signal_processed)

-- A tick that is no earlier than `start`, and less than a wrap of the count behind it.
unfoldable pub IsSoon : ℕ → ℕ × Bool → Type 0
IsSoon start reading = (start ≤ reading.0) × (reading.0 < start + 2 ^ 32)

-- The verdict on the ticks since boot as they are: the signal is in time if the flag is found set at
-- most 100 ticks behind the start.
pub verdict : ℕ → List (ℕ × Bool) → Outcome
verdict start [] = in_loop
verdict start ((tick, signal_processed) ∷ readings) =
    let rest = verdict start readings in
    if ltb (start + 100) tick then signal_missed else if signal_processed then signal_done else rest

-- A reading more than 100 ticks behind the start.
unfoldable pub IsOver : ℕ → List (ℕ × Bool) → Type 0
IsOver start [] = ⊥
IsOver start ((tick, signal_processed) ∷ []) = start + 100 < tick
IsOver start (first ∷ second ∷ readings) = IsOver start (second ∷ readings)

interval-elapsed :
    (start tick : ℕ)
    → start ≤ tick
    → tick < start + 2 ^ 32
    → interval (start % 2 ^ 32) (tick % 2 ^ 32) ≡ tick - start
unfolding interval
interval-elapsed start tick h k = omega arith

late_same :
    (start tick : ℕ)
    → start ≤ tick
    → tick < start + 2 ^ 32
    → ltb 100 (interval (start % 2 ^ 32) (tick % 2 ^ 32)) ≡ ltb (start + 100) tick
late_same start tick h k = rw (interval-elapsed start tick h k) (ground arith)

wait_loop-same :
    (start : ℕ) (readings : List (ℕ × Bool))
    → All (IsSoon start) readings
    → wait_loop (start % 2 ^ 32) (map as_read readings) ≡ verdict start readings
unfolding wait_loop verdict as_read IsSoon
wait_loop-same start [] soon = refl
wait_loop-same start ((tick, p) ∷ readings) soon =
    rw (late_same start tick soon.0.0 soon.0.1, wait_loop-same start readings soon.1) refl

verdict-ends :
    (start : ℕ) (readings : List (ℕ × Bool))
    → IsOver start readings
    → verdict start readings ≢ in_loop
unfolding verdict IsOver
verdict-ends start [] over e = elim over [ ]
verdict-ends start ((tick, p) ∷ []) over e = ground arith
verdict-ends start ((tick, true) ∷ second ∷ readings) over e = ground arith
verdict-ends start ((tick, false) ∷ second ∷ readings) over e =
    let later = verdict-ends start (second ∷ readings) over in ground arith

-- When the readings of the clock are no earlier than the start and fewer than 2^32 ticks behind it,
-- and the last is more than 100 ticks behind it, the task has ended, with the verdict on the ticks as
-- they are: its count may wrap round in between.
pub wait_loop-ends :
    (start : ℕ) (readings : List (ℕ × Bool))
    → All (IsSoon start) readings
    → IsOver start readings
    → (wait_loop (start % 2 ^ 32) (map as_read readings) ≢ in_loop)
      × (wait_loop (start % 2 ^ 32) (map as_read readings) ≡ verdict start readings)
wait_loop-ends start readings soon over =
    let same = wait_loop-same start readings soon in
    ((λ e. verdict-ends start readings over (cc)), same)
