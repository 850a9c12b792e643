-- ===== src/Blink/Single/Rhythm.antt =====
-- The switches and the waits of the programs with one task of led.
use rtems_examples.Common.{
  ℕ, zero, suc, ◌*◌, ◌≡◌, refl, ap, ◌∙◌, arith, Bool, List, [], ◌∷◌, Bool-cases, inl, inr,
}
use rtems_examples.Blink.{Led, off, on, by_count, next_count, alternate}
use rtems_examples.Blink.Parity.{by_count-next_count}
use rtems_examples.Blink.Single.{
  Effect, init_led, switch, ticks, seconds, period, complain, delay_loop, delay_init, sleep_loop,
  sleep_init, nanosleep_loop, nanosleep_init, timeout_loop, timeout_init, ratemon1_loop,
  ratemon1_init, ratemon2_loop, ratemon2_init,
}

-- What is seen of the LED.
pub switches : List Effect → List Led
switches [] = []
switches (switch led ∷ es) = led ∷ switches es
switches (init_led ∷ es) = switches es
switches (ticks n ∷ es) = switches es
switches (seconds n m ∷ es) = switches es
switches (period id n ∷ es) = switches es
switches (complain ∷ es) = switches es

abbrev off_on : List Led → List Led
off_on ls = off ∷ on ∷ ls

delay-alternate : (n hz : ℕ) → switches (delay_loop n hz) ≡ alternate (2 * n) off
unfolding delay_loop switches
delay-alternate zero hz = refl
delay-alternate (suc n) hz =
    let two : 2 * suc n ≡ suc (suc (2 * n)) = omega arith in
    rw two (ap off_on (delay-alternate n hz))

sleep-alternate : (n : ℕ) → switches (sleep_loop n) ≡ alternate (2 * n) off
unfolding sleep_loop switches
sleep-alternate zero = refl
sleep-alternate (suc n) =
    let two : 2 * suc n ≡ suc (suc (2 * n)) = omega arith in rw two (ap off_on (sleep-alternate n))

nanosleep-alternate : (n s ns : ℕ) → switches (nanosleep_loop n s ns) ≡ alternate (2 * n) off
unfolding nanosleep_loop switches
nanosleep-alternate zero s ns = refl
nanosleep-alternate (suc n) s ns =
    let two : 2 * suc n ≡ suc (suc (2 * n)) = omega arith in
    rw two (ap off_on (nanosleep-alternate n s ns))

ratemon2-alternate : (n hz : ℕ) → switches (ratemon2_loop hz n) ≡ alternate (2 * n) off
unfolding ratemon2_loop switches
ratemon2-alternate zero hz = refl
ratemon2-alternate (suc n) hz =
    let two : 2 * suc n ≡ suc (suc (2 * n)) = omega arith in
    rw two (ap off_on (ratemon2-alternate n hz))

ratemon1-alternate : (n hz c : ℕ) → switches (ratemon1_loop hz n c) ≡ alternate n (by_count c)
unfolding ratemon1_loop switches
ratemon1-alternate zero hz c = refl
ratemon1-alternate (suc n) hz c =
    ap (λ ls. by_count c ∷ ls)
      (ratemon1-alternate n hz (next_count c) ∙ ap (alternate n) (by_count-next_count c))

timeout-alternate :
    (timed_out : ℕ → Bool) (n hz c : ℕ)
    → switches (timeout_loop timed_out hz n c) ≡ alternate n (by_count c)
unfolding timeout_loop switches
timeout-alternate timed_out zero hz c = refl
timeout-alternate timed_out (suc n) hz c =
    let rest =
      ap (λ ls. by_count c ∷ ls)
        (timeout-alternate timed_out n hz (next_count c)
          ∙ ap (alternate n) (by_count-next_count c)) in
    elim (Bool-cases (timed_out n)) [ inl e ↦ rw e rest | inr e ↦ rw e rest ]

-- For any number of rounds each of the six programs switches the LED off and on in turn, off first:
-- two switches a round for delay, posix_delay_sleep, posix_delay_nanosleep and ratemon2, which makes
-- two more before its loop, and one a round for timeout_event, whether or not its receives end by
-- the timeout, and for ratemon1; their counts may wrap round.
pub switches-alternate :
    (timed_out : ℕ → Bool) (hz n : ℕ)
    → (switches (delay_init hz n) ≡ alternate (2 * n) off)
      × (switches (sleep_init n) ≡ alternate (2 * n) off)
      × (switches (nanosleep_init n) ≡ alternate (2 * n) off)
      × (switches (ratemon2_init hz n) ≡ alternate (suc (suc (2 * n))) off)
      × (switches (timeout_init timed_out hz n) ≡ alternate n off)
      × (switches (ratemon1_init hz n) ≡ alternate n off)
unfolding delay_init sleep_init nanosleep_init ratemon2_init timeout_init ratemon1_init switches
    by_count
switches-alternate timed_out hz n = (
  delay-alternate n (1 * hz),
  sleep-alternate n,
  nanosleep-alternate n 1 0,
  ap off_on (ratemon2-alternate n hz),
  timeout-alternate timed_out n hz 0,
  ratemon1-alternate n hz 0,
)
