-- ===== src/Blink/Timer/Tests.antt =====
-- Runs of led/timer/init.c and led/timer_server/init.c.
use rtems_examples.Common.{◌≡◌, refl, arith, none, List, [], ◌∷◌}
use rtems_examples.Blink.{off, on}
use rtems_examples.Blink.Timer.{Happens, fires, polls, run, init, server_init}
use rtems_examples.Blink.Timer.Flags.{idle, last_fired, two_calls, run-last_fired, two_calls_lem}
use rtems_examples.Blink.Timer.Due.{server_init-every}

-- The two timers have the identifiers 7 and 9; the second one overtakes the first.
abbrev overtaken : List Happens
overtaken = polls ∷ fires 7 ∷ polls ∷ polls ∷ fires 7 ∷ fires 9 ∷ polls ∷ []

overtaken-run : run 7 overtaken idle ≡ off ∷ on ∷ []
unfolding run
overtaken-run = refl

init_run : init 7 9 (fires 7 ∷ polls ∷ []) ≡ off ∷ on ∷ off ∷ []
unfolding init
init_run = refl

run-last_fired_example : run 7 overtaken idle ≡ last_fired 7 overtaken none
run-last_fired_example = run-last_fired 7 overtaken

two_calls_lem_example :
    (two_calls 7 0 7 ≡ off ∷ [])
    × (two_calls 7 1 7 ≡ [])
    × (two_calls 7 2 7 ≡ [])
    × (two_calls 7 3 7 ≡ on ∷ [])
    × (two_calls 7 4 7 ≡ off ∷ [])
two_calls_lem_example = two_calls_lem 7 7

-- A hundred ticks a second, started at tick 5.
server_init-every_example :
    server_init 7 100 9 2 5 ≡ (5, off) ∷ (105, on) ∷ (205, off) ∷ (305, on) ∷ []
server_init-every_example = server_init-every 7 9 100 refl (omega arith) 2 5
