-- ===== src/Blink/Timer/Flags.antt =====
-- led/timer/init.c: what of the timers' work reaches the LED.
use rtems_examples.Common.{
  ℕ, ◌≡◌, refl, arith, Bool-cases, inl, inr, Option, none, some, List, [], ◌∷◌, ◌==◌, if◌then◌else◌,
}
use rtems_examples.Blink.{Led, off, on}
use rtems_examples.Blink.Timer.{
  Shared, Frame, timer_routine, read_do_print, read_value, reset_do_print, reset_value, entered,
  act, led_change_routine, Happens, fires, polls, shown_first, run,
}

abbrev pub idle : Shared
idle = record { led_do_print = 0; led_value = 0 }

module _ (timer1 : ℕ) where
  abbrev pub led_of : ℕ → Led
  led_of id = if id == timer1 then off else on

  -- The switches that the events ask for: a call shows the timer that fired last since the call
  -- before, and nothing where none fired.
  pub last_fired : List Happens → Option ℕ → List Led
  last_fired [] p = []
  last_fired (fires id ∷ es) p = last_fired es (some id)
  last_fired (polls ∷ es) none = last_fired es none
  last_fired (polls ∷ es) (some id) = led_of id ∷ last_fired es none

  abbrev pending : Option ℕ → Shared
  pending none = idle
  pending (some id) = timer_routine timer1 id idle

  run-pending : (es : List Happens) (p : Option ℕ) → run timer1 es (pending p) ≡ last_fired es p
  unfolding run last_fired timer_routine led_change_routine
  run-pending [] p = refl
  run-pending (fires id ∷ es) none = run-pending es (some id)
  run-pending (fires id ∷ es) (some j) = run-pending es (some id)
  run-pending (polls ∷ es) none = run-pending es none
  run-pending (polls ∷ es) (some id) = ground (arith, run-pending es none)

  -- Where no timer fires inside `LED_Change_Routine`, each call of it shows the timer that fired last
  -- since the call before, and nothing where none fired.
  pub run-last_fired : (es : List Happens) → run timer1 es idle ≡ last_fired es none
  run-last_fired es = run-pending es none

  -- `LED_Change_Routine` with a timer that fires after so many of its four statements.
  pub change_interrupted : (after id : ℕ) → Shared → Option Led × Shared
  unfolding read_do_print read_value reset_do_print reset_value entered act timer_routine
  change_interrupted after id s =
      let hit = λ (n : ℕ) (f : Frame).
        if after == n then record f { shared = timer_routine timer1 id f.shared } else f in
      act (
        hit 4 (
          reset_value (
            hit 3
              (reset_do_print (hit 2 (read_value (hit 1 (read_do_print (hit 0 (entered s))))))))))

  -- That call, and the call after it.
  pub two_calls : (after id : ℕ) → List Led
  unfolding change_interrupted led_change_routine
  two_calls after id =
      let (led, s) = change_interrupted after id idle in
      let (again, t) = led_change_routine s in shown_first led (shown_first again [])

  -- A timer that fires inside `LED_Change_Routine`, with nothing pending: before the first statement
  -- or after the last one its switch is made; after the first or the second statement it is lost; and
  -- after the third the LED is switched on, also by the timer that is to switch it off.
  pub two_calls_lem :
      (id : ℕ)
      → (two_calls 0 id ≡ led_of id ∷ [])
        × (two_calls 1 id ≡ [])
        × (two_calls 2 id ≡ [])
        × (two_calls 3 id ≡ on ∷ [])
        × (two_calls 4 id ≡ led_of id ∷ [])
  unfolding two_calls
  two_calls_lem id = elim (Bool-cases (id == timer1)) [
    | inl e ↦ rw e (refl, refl, refl, refl, refl)
    | inr e ↦ rw e (refl, refl, refl, refl, refl)
  ]
