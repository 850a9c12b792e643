-- ===== src/Ticker/Schedule.antt =====
-- ticker: the seconds at which the tasks print, and where they end.
use rtems_examples.Common.{
  ℕ, zero, suc, ◌+◌, ◌*◌, ◌%◌, ◌≡◌, ◌<◌, refl, ap, sym, ◌∙◌, arith, true, false, List, [], ◌∷◌, leb,
  if◌then◌else◌,
}
use native.Mathlib.Nat.{mul-div_cancel, add-mul, zero-mul}
use rtems_examples.Ticker.{
  Event, prints, usage_report, ends, low_ticker_task, low_ticker1_task, low_ticker2_task,
  ticker_task, stackchk_task,
}

-- The three tasks, by their arguments.
pub data Task : Type 0 where
  ta1 : Task
  ta2 : Task
  ta3 : Task

abbrev pub index : Task → ℕ
index ta1 = 1
index ta2 = 2
index ta3 = 3

-- The lines of a task: every five, ten and fifteen seconds, while fewer than 35 have passed.
abbrev pub lines : Task → List Event → List Event
lines ta1 rest =
    prints 0 ∷ prints 5 ∷ prints 10 ∷ prints 15 ∷ prints 20 ∷ prints 25 ∷ prints 30 ∷ rest
lines ta2 rest = prints 0 ∷ prints 10 ∷ prints 20 ∷ prints 30 ∷ rest
lines ta3 rest = prints 0 ∷ prints 15 ∷ prints 30 ∷ rest

-- A run in seconds, with what the clock shows and what stands at the end.
in_seconds : (shows : ℕ → ℕ) (last : List Event) (step rounds second : ℕ) → List Event
in_seconds shows last step zero second = []
in_seconds shows last step (suc n) second =
    let rest = in_seconds shows last step n (second + step) in
    if leb 35 (shows second) then last else prints (shows second) ∷ rest

abbrev in_minute : ℕ → ℕ
in_minute second = second % 60

abbrev in_all : ℕ → ℕ
in_all second = second

eight : (n : ℕ) → 8 + n ≡ suc (suc (suc (suc (suc (suc (suc (suc n)))))))
eight n = omega arith

-- Eight rounds, or more, see the end.
eight_rounds :
    (t : Task) (n : ℕ) (last : List Event)
    → (in_seconds in_minute last (index t * 5) (8 + n) 0 ≡ lines t last)
      × (in_seconds in_all last (index t * 5) (8 + n) 0 ≡ lines t last)
unfolding in_seconds
eight_rounds ta1 n last = rw (eight n) (refl, refl)
eight_rounds ta2 n last = rw (eight n) (refl, refl)
eight_rounds ta3 n last = rw (eight n) (refl, refl)

module _ (hz : ℕ) (some_ticks : 0 < hz) where
  later : (second k : ℕ) → second * hz + k * 5 * hz ≡ (second + k * 5) * hz
  later second k = sym (add-mul second (k * 5) hz)

  low_ticker-in_seconds :
      (k n second : ℕ)
      → low_ticker_task hz k n (second * hz) ≡ in_seconds in_minute (ends ∷ []) (k * 5) n second
  unfolding low_ticker_task in_seconds
  low_ticker-in_seconds k zero second = refl
  low_ticker-in_seconds k (suc n) second =
      rw
        (
          mul-div_cancel second some_ticks,
          later second k,
          low_ticker-in_seconds k n (second + k * 5),
        )
        refl

  low_ticker2-in_seconds :
      (k n second : ℕ)
      → low_ticker2_task hz k n (second * hz) ≡ in_seconds in_all (ends ∷ []) (k * 5) n second
  unfolding low_ticker2_task in_seconds
  low_ticker2-in_seconds k zero second = refl
  low_ticker2-in_seconds k (suc n) second =
      rw
        (
          mul-div_cancel second some_ticks,
          later second k,
          low_ticker2-in_seconds k n (second + k * 5),
        )
        refl

  ticker-in_seconds :
      (k n second : ℕ)
      → ticker_task hz k n (second * hz) ≡ in_seconds in_minute (ends ∷ []) (k * 5) n second
  unfolding ticker_task in_seconds
  ticker-in_seconds k zero second = refl
  ticker-in_seconds k (suc n) second =
      rw (mul-div_cancel second some_ticks, later second k, ticker-in_seconds k n (second + k * 5))
        refl

  stackchk-in_seconds :
      (k n second : ℕ)
      → stackchk_task hz k n (second * hz)
        ≡ in_seconds in_minute (usage_report ∷ ends ∷ []) (k * 5) n second
  unfolding stackchk_task in_seconds
  stackchk-in_seconds k zero second = refl
  stackchk-in_seconds k (suc n) second =
      rw
        (mul-div_cancel second some_ticks, later second k, stackchk-in_seconds k n (second + k * 5))
        refl

  -- The periods are those of the delays of low_ticker2, one earlier in the loop.
  low_ticker1-low_ticker2 :
      (k n now : ℕ) → low_ticker1_task hz k n true now ≡ low_ticker2_task hz k n (now + k * 5 * hz)
  unfolding low_ticker1_task low_ticker2_task
  low_ticker1-low_ticker2 k zero now = refl
  low_ticker1-low_ticker2 k (suc n) now = rw (low_ticker1-low_ticker2 k n (now + k * 5 * hz)) refl

  low_ticker1_start : (k n : ℕ) → low_ticker1_task hz k n false 0 ≡ low_ticker2_task hz k n 0
  unfolding low_ticker1_task low_ticker2_task
  low_ticker1_start k zero = refl
  low_ticker1_start k (suc n) = rw (low_ticker1-low_ticker2 k n 0) refl

  -- With at least one tick a second and eight rounds or more, each of the three tasks of each of the
  -- five programs prints every five, ten or fifteen seconds, by its number, while fewer than 35
  -- seconds have passed, and then ends, ticker_stackchk with its report.
  pub schedule :
      (t : Task) (n : ℕ)
      → (low_ticker_task hz (index t) (8 + n) 0 ≡ lines t (ends ∷ []))
        × (low_ticker1_task hz (index t) (8 + n) false 0 ≡ lines t (ends ∷ []))
        × (low_ticker2_task hz (index t) (8 + n) 0 ≡ lines t (ends ∷ []))
        × (ticker_task hz (index t) (8 + n) 0 ≡ lines t (ends ∷ []))
        × (stackchk_task hz (index t) (8 + n) 0 ≡ lines t (usage_report ∷ ends ∷ []))
  schedule t n =
      let minutes = eight_rounds t n (ends ∷ []) in
      let reported = eight_rounds t n (usage_report ∷ ends ∷ []) in
      let second = start (low_ticker2_task hz (index t) (8 + n)) in
      (
        start (low_ticker_task hz (index t) (8 + n))
            ∙ low_ticker-in_seconds (index t) (8 + n) 0
            ∙ minutes.0,
        low_ticker1_start (index t) (8 + n)
            ∙ second
            ∙ low_ticker2-in_seconds (index t) (8 + n) 0
            ∙ minutes.1,
        second ∙ low_ticker2-in_seconds (index t) (8 + n) 0 ∙ minutes.1,
        start (ticker_task hz (index t) (8 + n))
            ∙ ticker-in_seconds (index t) (8 + n) 0
            ∙ minutes.0,
        start (stackchk_task hz (index t) (8 + n))
            ∙ stackchk-in_seconds (index t) (8 + n) 0
            ∙ reported.0,
      )
    where
      start : (run : ℕ → List Event) → run 0 ≡ run (0 * hz)
      start run = ap run (sym (zero-mul hz))
