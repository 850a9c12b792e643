-- ===== src/TriplePeriod.antt =====
-- classic_api/triple_period/tasks.c: three tasks that run once in a period, each by another directive.
-- What the clock says at the beginning of each round, and the statuses of the rate monotonic
-- directives, are lists; at the end of a list the task waits. Ticks since boot are left out.
mod Requests
mod Tests
use rtems_examples.Common.{
  ℕ, zero, suc, ◌+◌, ◌*◌, ◌%◌, ◌^◌, Bool, true, false, List, [], ◌∷◌, ◌==◌, not, leb, if◌then◌else◌,
}

-- `rtems_time_of_day`
pub record TimeOfDay : Type 0 where
  pub year : ℕ
  pub month : ℕ
  pub day : ℕ
  pub hour : ℕ
  pub minute : ℕ
  pub second : ℕ
  pub ticks : ℕ

abbrev pub period_task_absolute : ℕ
period_task_absolute = 1

abbrev pub period_task_rate_monotonic : ℕ
period_task_rate_monotonic = 2

abbrev pub period_task_relative : ℕ
period_task_relative = 3

-- What the tasks do: they print that they are active and at what time, they ask to be woken at a time
-- or after some ticks, they ask for a period, and they end the program.
pub data Act : Type 0 where
  activates : TimeOfDay → Act
  wakes_when : TimeOfDay → Act
  wakes_after : ℕ → Act
  asks_period : ℕ → Act
  says_missed : Act
  says_failed : ℕ → Act
  says_end : Act
  exits : ℕ → Act

-- The time that task 1 asks for.
pub wake_time : ℕ → TimeOfDay
wake_time count = record {
  year = 1988;
  month = 12;
  day = 31;
  hour = 9;
  minute = 0;
  second = (count * period_task_absolute) % 2 ^ 32;
  ticks = 0;
}

-- `Task_Absolute_Period` from a value of `count` on.
pub absolute_period : ℕ → List TimeOfDay → List Act
unfolding wake_time
absolute_period count [] = []
absolute_period count (time ∷ times) =
    let next = (count + 1) % 2 ^ 32 in
    let rest = absolute_period next times in
    if leb 60 time.second
    then says_end ∷ exits 0 ∷ []
    else activates time ∷ wakes_when (wake_time next) ∷ rest

-- The second call of the directive in a round of task 2, with its status and the rounds after it; the
-- kernel's `RTEMS_TIMEOUT`, the status of a period that was missed, is an argument.
pub block_on_period : ℕ → ℕ → ℕ → List Act → List Act
block_on_period rtems_timeout hz status rest =
    let failed =
      if not (status == rtems_timeout)
      then says_missed ∷ says_failed status ∷ exits 1 ∷ []
      else says_failed status ∷ exits 1 ∷ [] in
    asks_period (hz * period_task_rate_monotonic) ∷ (if status == 0 then rest else failed)

-- The rounds of task 2 once the period was created: the times, each with the status of the directive.
pub monotonic_loop : ℕ → ℕ → List (TimeOfDay × ℕ) → List Act
unfolding block_on_period
monotonic_loop rtems_timeout hz [] = []
monotonic_loop rtems_timeout hz ((time, status) ∷ rounds) =
    activates time
    ∷ block_on_period rtems_timeout hz status (monotonic_loop rtems_timeout hz rounds)

-- `Task_Rate_Monotonic_Period`: the first round also creates the period, and starts it.
pub rate_monotonic_period : ℕ → ℕ → ℕ → ℕ → List (TimeOfDay × ℕ) → List Act
unfolding monotonic_loop block_on_period
rate_monotonic_period rtems_timeout hz created started [] = []
rate_monotonic_period rtems_timeout hz created started ((time, status) ∷ rounds) =
    let running =
      block_on_period rtems_timeout hz status (monotonic_loop rtems_timeout hz rounds) in
    let begun =
      asks_period (hz * period_task_rate_monotonic)
      ∷ (if started == 0 then running else says_failed started ∷ exits 1 ∷ []) in
    activates time ∷ (if created == 0 then begun else says_failed created ∷ exits 1 ∷ [])

-- `Task_Relative_Period`
pub relative_period : ℕ → List TimeOfDay → List Act
relative_period hz [] = []
relative_period hz (time ∷ times) =
    activates time ∷ wakes_after (hz * period_task_relative) ∷ relative_period hz times
