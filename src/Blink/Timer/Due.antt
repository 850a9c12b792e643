-- ===== src/Blink/Timer/Due.antt =====
-- led/timer_server/init.c: the ticks at which the LED is switched.
use rtems_examples.Common.{
  ℕ, zero, suc, ◌+◌, ◌*◌, ◌≡◌, ◌<◌, refl, ap, arith, true, false, List, [], ◌∷◌, ◌==◌, leb,
}
use rtems_examples.Blink.{Led, off, on, flip}
use rtems_examples.Blink.Timer.{Timed, serve, server_init}

-- A switch in every period, in turn.
abbrev pub every : (hz rounds now : ℕ) → Led → List Timed
every hz zero now led = []
every hz (suc n) now led = (now, led) ∷ every hz n (now + hz) (flip led)

module _ (timer1 timer2 hz : ℕ) (distinct : (timer2 == timer1) ≡ false) (some_ticks : 0 < hz) where
  same : (timer1 == timer1) ≡ true
  same = ground arith

  serve-every :
      (n due : ℕ)
      → (serve timer1 hz timer2 n due (due + hz) ≡ every hz n due off)
        × (serve timer1 hz timer2 n (due + hz) due ≡ every hz n due on)
  unfolding serve
  serve-every zero due = (refl, refl)
  serve-every (suc n) due =
      let ih = serve-every n (due + hz) in
      let twice : due + 2 * hz ≡ due + hz + hz = omega arith in
      let soon : leb due (due + hz) ≡ true = ground arith in
      let late : leb (due + hz) due ≡ false = ground arith in
      (
        rw (soon, same, twice) (ap (λ r. (due, off) ∷ r) ih.1),
        rw (late, distinct, twice) (ap (λ r. (due, on) ∷ r) ih.0),
      )

  first_of : (n due : ℕ) → serve timer1 hz timer2 n due (due + hz) ≡ every hz n due off
  first_of n due = let both = serve-every n due in both.0

  -- With two different timers and at least one tick a second, timer_server switches the LED once a
  -- second from its start on, off first and then in turn, for any number of rounds of its server.
  pub server_init-every :
      (rounds now : ℕ)
      → server_init timer1 hz timer2 rounds now ≡ every hz (suc (suc rounds)) now off
  unfolding server_init
  server_init-every rounds now =
      let twice : now + 2 * hz ≡ now + hz + hz = omega arith in
      let thrice : now + hz + 2 * hz ≡ now + hz + hz + hz = omega arith in
      rw (same, distinct, twice, thrice)
        (ap (λ r. (now, off) ∷ (now + hz, on) ∷ r) (first_of rounds (now + hz + hz)))
