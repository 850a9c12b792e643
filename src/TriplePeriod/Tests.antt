-- ===== src/TriplePeriod/Tests.antt =====
-- Rounds of classic_api/triple_period/tasks.c.
use rtems_examples.Common.{ℕ, [], ◌∷◌, ◌≡◌, refl}
use rtems_examples.TriplePeriod.{
  TimeOfDay, activates, asks_period, says_failed, exits, rate_monotonic_period,
}

abbrev nine : ℕ → TimeOfDay
nine second = record {
  year = 1988;
  month = 12;
  day = 31;
  hour = 9;
  minute = 0;
  second = second;
  ticks = 0;
}

-- A period that was missed, with status 6, is not reported as one.
missed_test :
    rate_monotonic_period 6 100 0 0 ((nine 0, 6) ∷ [])
    ≡ activates (nine 0) ∷ asks_period 200 ∷ asks_period 200 ∷ says_failed 6 ∷ exits 1 ∷ []
unfolding rate_monotonic_period
missed_test = refl
