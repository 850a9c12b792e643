-- ===== src/Complex1/System/Tests.antt =====
-- Sessions with the LED server of led/complex1, and the theorem at one of them.
use rtems_examples.Common.{◌≡◌, refl, false, some, List, [], ◌∷◌}
use rtems_examples.Complex1.Queue.{Queue, returned, undefined, write, read, is_available}
use rtems_examples.Complex1.Queue.Invariant.{all_succeed}
use rtems_examples.Complex1.Server.{
  Message, stop_led, start_led, shutdown_led, set_rate, led_on, led_off, idle, started, handle,
  blink,
}
use rtems_examples.Complex1.System.{Event, calls, runs, run_system}
use rtems_examples.Complex1.System.Rounds.{found}
use rtems_examples.Complex1.System.Order.{session, run_system-session}
use rtems_examples.Complex1.System.Lifetime.{
  made, empty_queue, empty_queue-IsValid, cond_destroy_failed, failed, delete_queue, create_failed,
  led_server,
}

abbrev no_messages : Queue Message
no_messages = empty_queue (λ p. stop_led) 2

-- The third of three calls in a row finds no room.
abbrev events : List Event
events =
    calls (set_rate 100 0)
    ∷ calls start_led
    ∷ calls shutdown_led
    ∷ runs
    ∷ runs
    ∷ runs
    ∷ calls shutdown_led
    ∷ runs
    ∷ runs
    ∷ []

session_run :
    (run_system all_succeed stop_led 7 [] events (some (stop_led, started)) no_messages).0
    ≡ returned (
        idle
        ∷ led_on (record { tv_sec = 0; tv_nsec = 100000000 })
        ∷ led_off (record { tv_sec = 0; tv_nsec = 500000000 })
        ∷ [])
unfolding run_system write read is_available handle blink
session_run = refl

-- Behind the end of the thread the queue may go, and a round does nothing.
run_system-session_example :
    (run_system all_succeed stop_led 7 (runs ∷ []) events (some (stop_led, started)) no_messages).0
    ≡ session (runs ∷ []) (found 2 events []) started
run_system-session_example =
    run_system-session stop_led 7 (runs ∷ []) events stop_led started no_messages
      (empty_queue-IsValid (λ p. stop_led) 2)

-- The thread still sleeps out a period when the queue goes, and looks for the shutdown behind it.
late_round :
    (run_system all_succeed stop_led 7
      (runs ∷ [])
      (calls shutdown_led ∷ [])
      (some (stop_led, started))
      no_messages).0
    ≡ undefined
unfolding run_system write
late_round = refl

no_thread :
    led_server 0 0 11 0 (λ p. stop_led)
    ≡ made (record {
      queue = empty_queue (λ p. stop_led) 10;
      has_thread = false;
      lines = create_failed 11 ∷ [];
    })
unfolding led_server
no_thread = refl

still_waited_for : delete_queue 16 0 ≡ failed cond_destroy_failed
unfolding delete_queue
still_waited_for = refl
