-- ===== src/TriplePeriod/Requests.antt =====
-- classic_api/triple_period/tasks.c: what task 1 asks for, and why the program does not end.
use rtems_examples.Common.{ℕ, suc, ◌<◌, List, [], ◌∷◌}
use rtems_examples.TriplePeriod.{TimeOfDay, Act, activates, wakes_when, wake_time}

-- What the kernel's clock says, and what it accepts for a time to wake: the seconds are below 60.
unfoldable pub IsInMinute : TimeOfDay → Type 0
IsInMinute time = time.second < 60

-- The rounds of a task that asks for the second `count`, then for the next one, and so on, and never
-- ends.
pub rounds : ℕ → List TimeOfDay → List Act
rounds count [] = []
rounds count (time ∷ times) =
    activates time ∷ wakes_when (record (wake_time 0) { second = count }) ∷ rounds (suc count) times
