-- ===== src/Ticker/Program/Tests.antt =====
-- Runs of the programs of ticker, and the theorem at one of them.
use rtems_examples.Common.{◌≡◌, ◌%◌, ◌*◌, ◌&&◌, refl, arith, [], ◌∷◌, ltb, ◌==◌, if◌then◌else◌}
use mathlib.Core.List.{map}
use rtems_examples.Ticker.{prints, ends}
use rtems_examples.Ticker.Start.{Created, low_ticker_init, ticker_init, print_time}
use rtems_examples.Ticker.Schedule.{ta1, ta2, ta3, index}
use rtems_examples.Ticker.Program.{
  ticker, ticker_posix, round_of, all_ready, by_123, by_321, run, pick,
}
use rtems_examples.Ticker.Program.Seconds.{times, InOrder}
use rtems_examples.Ticker.Program.Lines.{output, run-lines}

posix_lines :
    run (round_of 100 ticker_posix) (λ n. by_321) 15 0 all_ready
    ≡ (ta3, prints 0)
      ∷ (ta2, prints 0)
      ∷ (ta1, prints 0)
      ∷ (ta1, prints 5)
      ∷ (ta2, prints 10)
      ∷ (ta1, prints 10)
      ∷ (ta3, prints 15)
      ∷ (ta1, prints 15)
      ∷ (ta2, prints 20)
      ∷ (ta1, prints 20)
      ∷ (ta1, prints 25)
      ∷ (ta3, prints 30)
      ∷ (ta2, prints 30)
      ∷ (ta1, prints 30)
      ∷ (ta1, ends)
      ∷ []
unfolding run round_of pick
posix_lines = refl

-- All three tasks of the low tickers have the name of the first.
names_of_low_ticker :
    map (λ (t : Created). t.name) low_ticker_init ≡ 0x54413120 ∷ 0x54413120 ∷ 0x54413120 ∷ []
unfolding low_ticker_init
names_of_low_ticker = refl

names_of_ticker :
    map (λ (t : Created). t.name) ticker_init ≡ 0x54413120 ∷ 0x54413220 ∷ 0x54413320 ∷ []
unfolding ticker_init
names_of_ticker = refl

-- New year's day is shown as that of month 0.
new_year :
    print_time
      (record { tm_mon = 0; tm_mday = 1; tm_year = 88; tm_hour = 0; tm_min = 0; tm_sec = 0 })
    ≡ 0 ∷ 1 ∷ 1988 ∷ 0 ∷ 0 ∷ 0 ∷ []
unfolding print_time
new_year = refl

run-lines_example :
    (times ta2 20 (output 100 (omega arith) ticker (λ n. by_123) 0)
      ≡ (if ltb 20 35 && (20 % (index ta2 * 5) == 0) then 1 else 0))
    × InOrder 0 (output 100 (omega arith) ticker (λ n. by_123) 0)
run-lines_example = run-lines 100 (omega arith) ticker (λ n. by_123) 0 ta2 20
