-- ===== src/Complex1/Server/Tests.antt =====
-- Runs of the server of led/complex1/ledServer.h, and the theorems at concrete periods.
use rtems_examples.Common.{◌+◌, ◌*◌, ◌<◌, ◌≡◌, ◌↔◌, ◌≤◌, refl, arith, true, none, some, [], ◌∷◌}
use rtems_examples.Common.Lists.{replicate}
use rtems_examples.Complex1.Server.{
  stop_led, start_led, shutdown_led, set_rate, Thread, led_on, led_off, idle, started, delay, blink,
  handle, thread_body, set_period,
}
use rtems_examples.Complex1.Server.Period.{
  delay-exact_iff, delay-valid, quiet, alternate, thread_body-alternate, thread_body_stopped,
}

abbrev blinking : Thread
blinking = record { active = true; led_count = 6; on_period = 100; off_period = 5000 }

short_session :
    thread_body
      (none ∷ some (set_rate 250 0) ∷ some start_led ∷ none ∷ some shutdown_led ∷ none ∷ [])
      started
    ≡ idle
      ∷ idle
      ∷ led_on (record { tv_sec = 0; tv_nsec = 250000000 })
      ∷ led_off (record { tv_sec = 0; tv_nsec = 500000000 })
      ∷ []
unfolding thread_body handle blink
short_session = refl

-- Five seconds off are slept as 5.7 seconds.
five_seconds : delay 5000 ≡ record { tv_sec = 5; tv_nsec = 705032704 }
unfolding delay
five_seconds = refl

no_zero_period : (set_period 0 5 ≡ none) × (set_period 7 5 ≡ some (set_rate 7 5))
unfolding set_period
no_zero_period = (refl, refl)

half_a_second : delay 0 ≡ record { tv_sec = 0; tv_nsec = 500000000 }
unfolding delay
half_a_second = refl

delay-valid_example : (delay 70000).tv_nsec < 1000000000
delay-valid_example = delay-valid 70000

thread_body-alternate_example : thread_body (quiet 5) blinking ≡ alternate 5 6 100 5000
thread_body-alternate_example = thread_body-alternate 5 blinking 6 refl refl

thread_body_stopped_example : thread_body (some stop_led ∷ quiet 3) blinking ≡ replicate 4 idle
thread_body_stopped_example = thread_body_stopped 3 blinking

delay-exact_iff_example :
    ((delay 4294).tv_sec * 1000000000 + (delay 4294).tv_nsec ≡ 4294 * 1000000) ↔ (4294 ≤ 4294)
delay-exact_iff_example = delay-exact_iff 4294 (omega arith) (omega arith)
