-- ===== src/Ticker/Tests.antt =====
-- The third task of ticker with a hundred ticks a second.
use rtems_examples.Common.{◌≡◌, refl, [], ◌∷◌}
use rtems_examples.Ticker.{prints, ends, ticker_task}

third_task : ticker_task 100 3 8 0 ≡ prints 0 ∷ prints 15 ∷ prints 30 ∷ ends ∷ []
unfolding ticker_task
third_task = refl
