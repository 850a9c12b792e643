-- ===== src/Blink/Single/Tests.antt =====
-- Runs of the programs with one task of led.
use rtems_examples.Common.{◌≡◌, refl, true, false, [], ◌∷◌}
use rtems_examples.Blink.{off, on, by_count}
use rtems_examples.Blink.Single.{
  init_led, switch, ticks, complain, delay_init, sleep_init, nanosleep_init, timeout_init,
  ratemon1_init, ratemon2_init,
}
use rtems_examples.Blink.Single.Rhythm.{switches, switches-alternate}

timeout_run :
    timeout_init (λ c. false) 100 2
    ≡ init_led ∷ ticks 100 ∷ complain ∷ switch off ∷ ticks 100 ∷ complain ∷ switch on ∷ []
unfolding timeout_init by_count
timeout_run = refl

switches-alternate_example :
    (switches (delay_init 100 1) ≡ off ∷ on ∷ [])
    × (switches (sleep_init 1) ≡ off ∷ on ∷ [])
    × (switches (nanosleep_init 1) ≡ off ∷ on ∷ [])
    × (switches (ratemon2_init 100 1) ≡ off ∷ on ∷ off ∷ on ∷ [])
    × (switches (timeout_init (λ c. true) 100 1) ≡ off ∷ [])
    × (switches (ratemon1_init 100 1) ≡ off ∷ [])
switches-alternate_example = switches-alternate (λ c. true) 100 1
