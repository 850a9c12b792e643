-- ===== src/Ticker/Program/Lines.antt =====
-- ticker: what the programs print as wholes, whoever of the tasks that are ready runs first.
use rtems_examples.Common.{
  ℕ, ◌+◌, ◌*◌, ◌%◌, ◌≡◌, ◌≤◌, ◌<◌, refl, ap, subst, sym, ◌∙◌, arith, true, false, ◌&&◌, List, [],
  ◌∷◌, leb, ltb, ◌==◌, if◌then◌else◌,
}
use native.Mathlib.Nat.{mul-div_cancel, add-mul, zero-mul}
use rtems_examples.Ticker.{Event, prints, usage_report, ends, tod_second, uptime_second}
use rtems_examples.Ticker.Schedule.{Task, ta1, ta2, ta3, index}
use rtems_examples.Ticker.Program.{
  ends_program, goes_on, Program, low_ticker, low_ticker1, low_ticker2, ticker, ticker_trace,
  ticker_stackchk, ticker_posix, round_of, all_ready, Order, run,
}
use rtems_examples.Ticker.Program.Seconds.{
  times, InOrder, IsLast, plainly, reported, Fits, times-run, run-InOrder, expected, second_round,
}
use rtems_examples.Ticker.Program.Run.{scaled, run-scaled}

abbrev limit_of : Program → ℕ
limit_of ticker_posix = 32
limit_of p = 35

abbrev last_of : Program → List Event
last_of ticker_stackchk = usage_report ∷ ends ∷ []
last_of p = ends ∷ []

IsLast-last_of : (p : Program) → IsLast (last_of p)
IsLast-last_of low_ticker = plainly
IsLast-last_of low_ticker1 = plainly
IsLast-last_of low_ticker2 = plainly
IsLast-last_of ticker = plainly
IsLast-last_of ticker_trace = plainly
IsLast-last_of ticker_stackchk = reported
IsLast-last_of ticker_posix = plainly

small : (p : Program) → limit_of p ≤ 35
small low_ticker = omega arith
small low_ticker1 = omega arith
small low_ticker2 = omega arith
small ticker = omega arith
small ticker_trace = omega arith
small ticker_stackchk = omega arith
small ticker_posix = omega arith

large : (p : Program) → 30 < limit_of p
large low_ticker = omega arith
large low_ticker1 = omega arith
large low_ticker2 = omega arith
large ticker = omega arith
large ticker_trace = omega arith
large ticker_stackchk = omega arith
large ticker_posix = omega arith

expected_all :
    (limit : ℕ) (k : Task) (s : ℕ)
    → 30 < limit
    → limit ≤ 35
    → expected limit all_ready k s ≡ (if ltb s 35 && (s % (index k * 5) == 0) then 1 else 0)
expected_all limit ta1 s h g = ground arith
expected_all limit ta2 s h g = ground arith
expected_all limit ta3 s h g = ground arith

module _ (hz : ℕ) (some_ticks : 0 < hz) where
  uptime : (s : ℕ) → uptime_second hz (s * hz) ≡ s
  unfolding uptime_second
  uptime s = mul-div_cancel s some_ticks

  tod : (s : ℕ) → s < 60 → tod_second hz (s * hz) ≡ s
  unfolding tod_second
  tod s h = ap (λ t. t % 60) (mul-div_cancel s some_ticks) ∙ omega (arith, h)

  later : (s k : ℕ) → s * hz + k * 5 * hz ≡ (s + k * 5) * hz
  later s k = sym (add-mul s (k * 5) hz)

  ends_at :
      (p : Program) (k : Task) (s : ℕ)
      → s < 60
      → leb (limit_of p) s ≡ true
      → round_of hz p k (s * hz) ≡ ends_program (last_of p)
  unfolding round_of
  ends_at low_ticker k s h e = rw (tod s h, e) refl
  ends_at low_ticker1 k s h e = rw (uptime s, e) refl
  ends_at low_ticker2 k s h e = rw (uptime s, e) refl
  ends_at ticker k s h e = rw (tod s h, e) refl
  ends_at ticker_trace k s h e = rw (tod s h, e) refl
  ends_at ticker_stackchk k s h e = rw (tod s h, e) refl
  ends_at ticker_posix k s h e = rw (uptime s, e) refl

  goes_at :
      (p : Program) (k : Task) (s : ℕ)
      → s < 60
      → leb (limit_of p) s ≡ false
      → round_of hz p k (s * hz) ≡ goes_on (prints s) ((s + index k * 5) * hz)
  unfolding round_of
  goes_at low_ticker k s h e = rw (tod s h, e, later s (index k)) refl
  goes_at low_ticker1 k s h e = rw (uptime s, e, later s (index k)) refl
  goes_at low_ticker2 k s h e = rw (uptime s, e, later s (index k)) refl
  goes_at ticker k s h e = rw (tod s h, e, later s (index k)) refl
  goes_at ticker_trace k s h e = rw (tod s h, e, later s (index k)) refl
  goes_at ticker_stackchk k s h e = rw (tod s h, e, later s (index k)) refl
  goes_at ticker_posix k s h e = rw (uptime s, e, later s (index k)) refl

  module _ (p : Program) (order : ℕ → Order) (n : ℕ) where
    at_start : all_ready ≡ scaled hz some_ticks all_ready
    at_start = rw (zero-mul hz) refl

    abbrev pub output : List (Task × Event)
    output = run (round_of hz p) order (15 + n) 0 all_ready

    in_seconds : output ≡ run (second_round (limit_of p) (last_of p)) order (15 + n) 0 all_ready
    in_seconds =
        ap (run (round_of hz p) order (15 + n) 0) at_start
        ∙ run-scaled hz some_ticks (limit_of p) (small p) (last_of p) (round_of hz p) (ends_at p)
            (goes_at p) order (15 + n) 0 all_ready
            (record { below1 = omega arith; below2 = omega arith; below3 = omega arith })

    fits : Fits (limit_of p) (15 + n) all_ready
    fits = record {
      due1 = refl;
      due2 = refl;
      due3 = refl;
      enough = (omega (arith, small p, large p));
    }

    -- Whichever of the tasks that are ready runs first, each of the seven programs, with at least
    -- one tick a second and fifteen rounds or more, has each task print each multiple of its period
    -- below 35 once and no other second; the seconds never go down, and the program ends once,
    -- behind all lines.
    pub run-lines :
        (k : Task) (s : ℕ)
        → (times k s output ≡ (if ltb s 35 && (s % (index k * 5) == 0) then 1 else 0))
          × InOrder 0 output
    run-lines k s = (
      ap (times k s) in_seconds
          ∙ times-run (limit_of p) (last_of p) (IsLast-last_of p) order (15 + n) 0 all_ready k s
              fits
          ∙ expected_all (limit_of p) k s (large p) (small p),
      subst (InOrder 0) (sym in_seconds) (
          run-InOrder (limit_of p) (last_of p) (IsLast-last_of p) order (15 + n) 0 all_ready 0 fits
            (ground arith)),
    )
