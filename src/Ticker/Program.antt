-- ===== src/Ticker/Program.antt =====
-- ticker: the programs as wholes, with the three tasks on one clock. A round of a task takes no
-- time, and of the tasks that wake at the same tick any may run first. The first task that ends
-- ends the program.
pub mod Seconds
pub mod Run
pub mod Lines
mod Tests
use rtems_examples.Common.{
  ℕ, zero, suc, ◌+◌, ◌*◌, ◌/◌, Bool, true, false, ◌&&◌, List, [], ◌∷◌, leb, if◌then◌else◌,
}
use mathlib.Core.List.{map}
use rtems_examples.Ticker.{Event, prints, usage_report, ends, tod_second, uptime_second}
use rtems_examples.Ticker.Schedule.{Task, ta1, ta2, ta3, index}

-- A round of a task ends the program, or prints and says when the task wakes next.
pub data Round : Type 0 where
  ends_program : List Event → Round
  goes_on : Event → (wakes : ℕ) → Round

module _ (hz : ℕ) where
  -- The loops of low_ticker/init.c, ticker/init.c and ticker_trace/init.c
  pub low_ticker_round : Task → ℕ → Round
  unfolding tod_second
  low_ticker_round k now =
      if leb 35 (tod_second hz now)
      then ends_program (ends ∷ [])
      else goes_on (prints (tod_second hz now)) (now + index k * 5 * hz)

  pub ticker_round : Task → ℕ → Round
  unfolding tod_second
  ticker_round k now =
      let ticks = index k * 5 * hz in
      if leb 35 (tod_second hz now)
      then ends_program (ends ∷ [])
      else goes_on (prints (tod_second hz now)) (now + ticks)

  pub trace_round : Task → ℕ → Round
  unfolding tod_second
  trace_round k now =
      let ticks = index k * 5 * hz in
      if leb 35 (tod_second hz now)
      then ends_program (ends ∷ [])
      else goes_on (prints (tod_second hz now)) (now + ticks)

  -- low_ticker1/init.c: a round begins where the period before it ends.
  pub low_ticker1_round : Task → ℕ → Round
  unfolding uptime_second
  low_ticker1_round k now =
      let ticks = index k * 5 * hz in
      if leb 35 (uptime_second hz now)
      then ends_program (ends ∷ [])
      else goes_on (prints (uptime_second hz now)) (now + ticks)

  -- low_ticker2/init.c
  pub low_ticker2_round : Task → ℕ → Round
  unfolding uptime_second
  low_ticker2_round k now =
      let ticks = index k * 5 * hz in
      if leb 35 (uptime_second hz now)
      then ends_program (ends ∷ [])
      else goes_on (prints (uptime_second hz now)) (now + ticks)

  -- ticker_stackchk/init.c
  pub stackchk_round : Task → ℕ → Round
  unfolding tod_second
  stackchk_round k now =
      let ticks = index k * 5 * hz in
      if leb 35 (tod_second hz now)
      then ends_program (usage_report ∷ ends ∷ [])
      else goes_on (prints (tod_second hz now)) (now + ticks)

  -- ticker_posix/test.c: `User_Thread` has no end, but `main` ends the program after 32 seconds.
  pub posix_round : Task → ℕ → Round
  unfolding uptime_second
  posix_round k now =
      if leb 32 (uptime_second hz now)
      then ends_program (ends ∷ [])
      else goes_on (prints (uptime_second hz now)) (now + index k * 5 * hz)

-- The seven programs.
pub data Program : Type 0 where
  low_ticker low_ticker1 low_ticker2 ticker ticker_trace ticker_stackchk ticker_posix : Program

pub round_of : (hz : ℕ) → Program → Task → ℕ → Round
unfolding low_ticker_round low_ticker1_round low_ticker2_round ticker_round trace_round
    stackchk_round posix_round
round_of hz low_ticker = low_ticker_round hz
round_of hz low_ticker1 = low_ticker1_round hz
round_of hz low_ticker2 = low_ticker2_round hz
round_of hz ticker = ticker_round hz
round_of hz ticker_trace = trace_round hz
round_of hz ticker_stackchk = stackchk_round hz
round_of hz ticker_posix = posix_round hz

-- When the tasks wake next.
pub record Dues : Type 0 where
  pub due1 : ℕ
  pub due2 : ℕ
  pub due3 : ℕ

abbrev pub due : Dues → Task → ℕ
due d ta1 = d.due1
due d ta2 = d.due2
due d ta3 = d.due3

abbrev pub set_due : Dues → Task → ℕ → Dues
set_due d ta1 t = record d { due1 = t }
set_due d ta2 t = record d { due2 = t }
set_due d ta3 t = record d { due3 = t }

abbrev pub all_ready : Dues
all_ready = record { due1 = 0; due2 = 0; due3 = 0 }

-- Who runs first of those that are ready.
pub data Order : Type 0 where
  by_123 by_132 by_213 by_231 by_312 by_321 : Order

abbrev pub is_least : Dues → ℕ → Bool
is_least d t = leb t d.due1 && leb t d.due2 && leb t d.due3

pub choose : Dues → Task → Task → Task → Task
choose d a b c = if is_least d (due d a) then a else if is_least d (due d b) then b else c

pub pick : Order → Dues → Task
unfolding choose
pick by_123 d = choose d ta1 ta2 ta3
pick by_132 d = choose d ta1 ta3 ta2
pick by_213 d = choose d ta2 ta1 ta3
pick by_231 d = choose d ta2 ta3 ta1
pick by_312 d = choose d ta3 ta1 ta2
pick by_321 d = choose d ta3 ta2 ta1

module _ (round : Task → ℕ → Round) (order : ℕ → Order) where
  -- The program from its round number `n` on, for at most `fuel` rounds.
  pub run : (fuel n : ℕ) → Dues → List (Task × Event)
  run zero n d = []
  run (suc fuel) n d =
      let k = pick (order n) d in
      elim (round k (due d k)) [
        | ends_program events ↦ map (λ event. (k, event)) events
        | goes_on event wakes ↦ (k, event) ∷ run fuel (n + 1) (set_due d k wakes)
      ]
