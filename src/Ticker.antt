-- ===== src/Ticker.antt =====
-- ticker: the tasks of low_ticker, low_ticker1, low_ticker2, ticker and ticker_stackchk.
-- The clock counts ticks from the start of the program, when a time of day with no minutes and no
-- seconds is set; what a task does takes no time, and it wakes at the tick that it asks for. A run
-- is that of one task for a number of rounds of its loop.
pub mod Schedule
pub mod Start
pub mod Program
mod Tests
use rtems_examples.Common.{
  ℕ, zero, suc, ◌+◌, ◌*◌, ◌/◌, ◌%◌, Bool, true, false, List, [], ◌∷◌, leb, if◌then◌else◌,
}

pub data Event : Type 0 where
  -- A line with the seconds of the clock.
  prints : (second : ℕ) → Event
  usage_report : Event
  ends : Event

module _ (hz : ℕ) where
  -- `rtems_clock_get_tod` and `rtems_clock_get_uptime`, the seconds only.
  pub tod_second : ℕ → ℕ
  tod_second now = (now / hz) % 60

  pub uptime_second : ℕ → ℕ
  uptime_second now = now / hz

  -- low_ticker/init.c
  pub low_ticker_task : (task_index rounds now : ℕ) → List Event
  unfolding tod_second
  low_ticker_task task_index zero now = []
  low_ticker_task task_index (suc n) now =
      let second = tod_second now in
      let rest = low_ticker_task task_index n (now + task_index * 5 * hz) in
      if leb 35 second then ends ∷ [] else prints second ∷ rest

  -- low_ticker1/init.c; the first `rtems_rate_monotonic_period` returns at once, and each later one
  -- a period after the one before.
  pub low_ticker1_task : (task_index rounds : ℕ) (started : Bool) (now : ℕ) → List Event
  unfolding uptime_second
  low_ticker1_task task_index zero started now = []
  low_ticker1_task task_index (suc n) started now =
      let ticks = task_index * 5 * hz in
      let woken = if started then now + ticks else now in
      let rest = low_ticker1_task task_index n true woken in
      if leb 35 (uptime_second woken) then ends ∷ [] else prints (uptime_second woken) ∷ rest

  -- low_ticker2/init.c
  pub low_ticker2_task : (task_index rounds now : ℕ) → List Event
  unfolding uptime_second
  low_ticker2_task task_index zero now = []
  low_ticker2_task task_index (suc n) now =
      let ticks = task_index * 5 * hz in
      let second = uptime_second now in
      let rest = low_ticker2_task task_index n (now + ticks) in
      if leb 35 second then ends ∷ [] else prints second ∷ rest

  -- ticker/init.c
  pub ticker_task : (task_index rounds now : ℕ) → List Event
  unfolding tod_second
  ticker_task task_index zero now = []
  ticker_task task_index (suc n) now =
      let ticks = task_index * 5 * hz in
      let second = tod_second now in
      let rest = ticker_task task_index n (now + ticks) in
      if leb 35 second then ends ∷ [] else prints second ∷ rest

  -- ticker_stackchk/init.c
  pub stackchk_task : (task_index rounds now : ℕ) → List Event
  unfolding tod_second
  stackchk_task task_index zero now = []
  stackchk_task task_index (suc n) now =
      let ticks = task_index * 5 * hz in
      let second = tod_second now in
      let rest = stackchk_task task_index n (now + ticks) in
      if leb 35 second then usage_report ∷ ends ∷ [] else prints second ∷ rest
