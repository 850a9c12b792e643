-- ===== src/Complex1/Server/Period.antt =====
-- The blinking of led/complex1/ledServer.h: alternation, and the time that a period takes.
use rtems_examples.Common.{
  ℕ, zero, suc, ◌+◌, ◌-◌, ◌*◌, ◌%◌, ◌^◌, ◌≤◌, ◌<◌, ◌≡◌, ◌≢◌, ◌↔◌, refl, ap, arith, true, false,
  Option, none, some, List, [], ◌∷◌, ◌++◌, ◌==◌, if◌then◌else◌,
}
use rtems_examples.Common.Lists.{replicate}
use rtems_examples.Complex1.Server.{
  Message, stop_led, start_led, shutdown_led, set_rate, Thread, Action, led_on, led_off, idle,
  handle, delay, blink, thread_body, set_period,
}

-- A period of 1 to 4294 milliseconds, the longest whose nanoseconds fit 32 bits, is slept in full.
pub delay-exact :
    (p : ℕ) → 0 < p → p ≤ 4294 → (delay p).tv_sec * 1000000000 + (delay p).tv_nsec ≡ p * 1000000
unfolding delay
delay-exact p h k = ground arith

-- What `nanosleep` is given is always a valid time.
pub delay-valid : (p : ℕ) → (delay p).tv_nsec < 1000000000
unfolding delay
delay-valid p = omega arith

-- From 4295 to 8589 milliseconds the product wraps round once, and what is slept is not the period:
-- the nanoseconds are those of the wrapped product.
pub delay-wraps :
    (p : ℕ)
    → 4295 ≤ p
    → p ≤ 8589
    → ((delay p).tv_nsec ≡ (p * 1000000 - 2 ^ 32) % 1000000000)
      × ((delay p).tv_sec * 1000000000 + (delay p).tv_nsec ≢ p * 1000000)
unfolding delay
delay-wraps p lo hi = ground arith

-- The LED as it should be driven: on, off, on, off, from a count on.
pub alternate : ℕ → ℕ → ℕ → ℕ → List Action
alternate zero count on off = []
alternate (suc rounds) count on off =
    (if count % 2 == 0 then led_on (delay on) else led_off (delay off))
    ∷ alternate rounds (count + 1) on off

abbrev pub quiet : ℕ → List (Option Message)
quiet zero = []
quiet (suc n) = none ∷ quiet n

blink_active :
    (t : Thread)
    → t.active ≡ true
    → blink t ≡ (
      record t { led_count = (t.led_count + 1) % 2 ^ 32 },
      if t.led_count % 2 == 0 then led_on (delay t.on_period) else led_off (delay t.off_period),
    )
unfolding blink
blink_active t a = ground arith

-- While the server is active and no message comes, the LED goes on and off in turn with the two
-- periods, on when the count of the rounds before is even; the count may wrap round.
pub thread_body-alternate :
    (rounds : ℕ) (t : Thread) (count : ℕ)
    → t.active ≡ true
    → count % 2 ≡ t.led_count % 2
    → thread_body (quiet rounds) t ≡ alternate rounds count t.on_period t.off_period
unfolding thread_body alternate
thread_body-alternate zero t count a e = refl
thread_body-alternate (suc rounds) t count a e =
    let t' : Thread = record t { led_count = (t.led_count + 1) % 2 ^ 32 } in
    rw (blink_active t a, e)
      (ap
        (λ l.
          (if t.led_count % 2 == 0
            then led_on (delay t.on_period)
            else led_off (delay t.off_period))
          ∷ l)
        (thread_body-alternate rounds t' (count + 1) a (omega arith)))

-- Whatever the messages, a stopped server drives no LED: after `StopLED` every round up to the next
-- message is idle.
pub thread_body_stopped :
    (rounds : ℕ) (t : Thread)
    → thread_body (some stop_led ∷ quiet rounds) t ≡ replicate (suc rounds) idle
unfolding thread_body handle blink
thread_body_stopped rounds t = ap (λ l. idle ∷ l) (off rounds (record t { active = false }) refl)
  where
    off :
        (rounds : ℕ) (t : Thread)
        → t.active ≡ false
        → thread_body (quiet rounds) t ≡ replicate rounds idle
    off zero t e = refl
    off (suc rounds) t e = ground (arith, off rounds t e)

-- After `ShutdownLED` the thread looks at no message and drives the LED no more.
pub thread_body_shutdown :
    (before : List (Option Message)) (after : List (Option Message)) (t : Thread)
    → thread_body (before ++ some shutdown_led ∷ after) t ≡ thread_body before t
unfolding thread_body handle
thread_body_shutdown [] after t = refl
thread_body_shutdown (none ∷ before) after t =
    ap (λ l. (blink t).1 ∷ l) (thread_body_shutdown before after (blink t).0)
thread_body_shutdown (some shutdown_led ∷ before) after t = refl
thread_body_shutdown (some start_led ∷ before) after t =
    let t' : Thread = record t { active = true } in
    ap (λ l. (blink t').1 ∷ l) (thread_body_shutdown before after (blink t').0)
thread_body_shutdown (some stop_led ∷ before) after t =
    let t' : Thread = record t { active = false } in
    ap (λ l. (blink t').1 ∷ l) (thread_body_shutdown before after (blink t').0)
thread_body_shutdown (some (set_rate on off) ∷ before) after t =
    let t' : Thread = record t { on_period = on; off_period = off } in
    ap (λ l. (blink t').1 ∷ l) (thread_body_shutdown before after (blink t').0)

-- The periods that the menu lets through are asked for as they are.
pub set_period-asked :
    (on off : ℕ)
    → 1 ≤ on
    → on ≤ 10000
    → 1 ≤ off
    → off ≤ 10000
    → set_period (on % 2 ^ 32) (off % 2 ^ 32) ≡ some (set_rate on off)
unfolding set_period
set_period-asked on off a b c e = ground arith

-- Of the periods that the menu lets through, 1 to 10000 milliseconds, exactly those up to 4294 are
-- slept in full: the nanoseconds of a longer one do not fit 32 bits.
pub delay-exact_iff :
    (p : ℕ)
    → 0 < p
    → p ≤ 10000
    → ((delay p).tv_sec * 1000000000 + (delay p).tv_nsec ≡ p * 1000000) ↔ (p ≤ 4294)
unfolding delay
delay-exact_iff p h k = (λ e. ground arith, λ e. ground arith)
