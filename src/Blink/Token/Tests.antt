-- ===== src/Blink/Token/Tests.antt =====
-- Runs of led/sem_server/init.c and led/posix_mutex_server/test.c.
use rtems_examples.Common.{refl, [], ◌∷◌}
use rtems_examples.Blink.{off, on, Alternates}
use rtems_examples.Blink.Token.{
  State, at_release, asleep, at_obtain, init_step, test_step, is_ready, Step, init_runs, test_runs,
  init_wakes, Reach, here, next, sem_start, mutex_start,
}
use rtems_examples.Blink.Token.Alternation.{sem-Reach-Alternates}

-- `Init` switches the LED off and sleeps, `Test_task` waits, `Init` wakes and releases, `Test_task`
-- switches the LED on.
abbrev after_one_second : State
after_one_second = record { main = at_obtain; server = asleep; free = 0; leds = on ∷ off ∷ [] }

sem-run : Reach sem_start after_one_second
unfolding sem_start init_step test_step is_ready
sem-run =
    let sleeping = init_step sem_start in
    let both_idle = test_step sleeping in
    let released = init_step (record both_idle { main = at_release }) in
    next
      (next
        (next (next (next here (init_runs sem_start refl)) (test_runs sleeping refl))
          (init_wakes both_idle (refl, refl) refl))
        (init_runs (record both_idle { main = at_release }) refl))
      (test_runs released refl)

sem-Reach-Alternates_example :
    Alternates after_one_second.leds × ((t : State) × Step after_one_second t)
sem-Reach-Alternates_example = sem-Reach-Alternates sem-run

-- The server locks the mutex first.
abbrev server_first : State
server_first = record { main = at_obtain; server = asleep; free = 0; leds = on ∷ [] }

mutex-run : Reach mutex_start server_first
unfolding mutex_start test_step is_ready
mutex-run = next (next here (test_runs mutex_start refl)) (test_runs (test_step mutex_start) refl)
