-- ===== src/Blink/Single.antt =====
-- led/delay, led/posix_delay_sleep, led/posix_delay_nanosleep, led/timeout_event, led/ratemon1 and
-- led/ratemon2: one task that waits and switches the LED, without an end.
-- A run is that of a number of rounds of the loop. The waits are those that the task asks for.
pub mod Rhythm
mod Tests
use rtems_examples.Common.{
  ℕ, zero, suc, ◌+◌, ◌*◌, Bool, true, false, List, [], ◌∷◌, ◌++◌, if◌then◌else◌,
}
use rtems_examples.Blink.{Led, off, on, by_count, next_count}

pub data Effect : Type 0 where
  init_led : Effect
  switch : Led → Effect
  -- A wait for ticks, or for seconds and nanoseconds.
  ticks : ℕ → Effect
  seconds : ℕ → ℕ → Effect
  -- A wait for the end of the period of the timer with this number, of so many ticks.
  period : ℕ → ℕ → Effect
  complain : Effect

-- delay/init.c
pub delay_loop : ℕ → ℕ → List Effect
delay_loop zero one_second = []
delay_loop (suc n) one_second =
    ticks one_second ∷ switch off ∷ ticks one_second ∷ switch on ∷ delay_loop n one_second

pub delay_init : ℕ → ℕ → List Effect
unfolding delay_loop
delay_init hz rounds = let one_second = 1 * hz in init_led ∷ delay_loop rounds one_second

-- posix_delay_sleep/test.c
pub sleep_loop : ℕ → List Effect
sleep_loop zero = []
sleep_loop (suc n) = seconds 1 0 ∷ switch off ∷ seconds 1 0 ∷ switch on ∷ sleep_loop n

pub sleep_init : ℕ → List Effect
unfolding sleep_loop
sleep_init rounds = init_led ∷ sleep_loop rounds

-- posix_delay_nanosleep/test.c
pub nanosleep_loop : ℕ → ℕ → ℕ → List Effect
nanosleep_loop zero tv_sec tv_nsec = []
nanosleep_loop (suc n) tv_sec tv_nsec =
    seconds tv_sec tv_nsec
    ∷ switch off
    ∷ seconds tv_sec tv_nsec
    ∷ switch on
    ∷ nanosleep_loop n tv_sec tv_nsec

pub nanosleep_init : ℕ → List Effect
unfolding nanosleep_loop
nanosleep_init rounds = init_led ∷ nanosleep_loop rounds 1 0

-- timeout_event/init.c; the argument says whether a receive ended by its timeout, by the rounds left
-- behind it.
pub timeout_loop : (ℕ → Bool) → ℕ → ℕ → ℕ → List Effect
timeout_loop timed_out hz zero count = []
timeout_loop timed_out hz (suc n) count =
    let rest = switch (by_count count) ∷ timeout_loop timed_out hz n (next_count count) in
    ticks hz ∷ (if timed_out n then rest else complain ∷ rest)

pub timeout_init : (ℕ → Bool) → ℕ → ℕ → List Effect
unfolding timeout_loop
timeout_init timed_out hz rounds = init_led ∷ timeout_loop timed_out hz rounds 0

-- ratemon1/init.c
pub ratemon1_loop : ℕ → ℕ → ℕ → List Effect
ratemon1_loop hz zero count = []
ratemon1_loop hz (suc n) count =
    period 1 hz ∷ switch (by_count count) ∷ ratemon1_loop hz n (next_count count)

pub ratemon1_init : ℕ → ℕ → List Effect
unfolding ratemon1_loop
ratemon1_init hz rounds = init_led ∷ ratemon1_loop hz rounds 0

-- ratemon2/init.c
pub ratemon2_loop : ℕ → ℕ → List Effect
ratemon2_loop hz zero = []
ratemon2_loop hz (suc n) =
    period 1 (2 * hz) ∷ switch off ∷ period 2 (2 * hz) ∷ switch on ∷ ratemon2_loop hz n

pub ratemon2_init : ℕ → ℕ → List Effect
unfolding ratemon2_loop
ratemon2_init hz rounds =
    init_led
    ∷ period 1 (2 * hz)
    ∷ switch off
    ∷ ticks hz
    ∷ period 2 (2 * hz)
    ∷ switch on
    ∷ ratemon2_loop hz rounds
