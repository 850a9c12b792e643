-- ===== src/Complex1/Server.antt =====
-- led/complex1/ledServer.h: the requests of the clients and the thread that drives the LED.
-- An `unsigned int` has 32 bits, and so has the `long` that `tv_nsec` is stored to.
pub mod Period
mod Tests
use rtems_examples.Common.{
  ℕ, zero, suc, ◌+◌, ◌*◌, ◌/◌, ◌%◌, ◌^◌, Bool, true, false, Option, none, some, List, [], ◌∷◌, ◌==◌,
  ◌||◌, if◌then◌else◌,
}

-- `Message_t`: the discriminator, with the arguments of `SetRate`.
pub data Message : Type 0 where
  stop_led start_led shutdown_led : Message
  set_rate : (on_period off_period : ℕ) → Message

-- The locals of `ThreadBody`.
pub record Thread : Type 0 where
  pub active : Bool
  pub led_count : ℕ
  pub on_period : ℕ
  pub off_period : ℕ

pub record Timespec : Type 0 where
  pub tv_sec : ℕ
  pub tv_nsec : ℕ

-- What a round of the loop does to the LED and how long it sleeps.
pub data Action : Type 0 where
  led_on led_off : Timespec → Action
  idle : Action

abbrev pub started : Thread
started = record { active = false; led_count = 0; on_period = 0; off_period = 0 }

-- The `switch`; `none` leaves the loop.
unfoldable pub handle : Message → Thread → Option Thread
handle start_led t = some (record t { active = true })
handle stop_led t = some (record t { active = false })
handle (set_rate on off) t = some (record t { on_period = on; off_period = off })
handle shutdown_led t = none

-- `p = (p) ? p : 500` and the two assignments to `ts`. `p * 1000000` is an `unsigned int`.
unfoldable pub delay : ℕ → Timespec
delay period =
    let p = if period == 0 then 500 else period in
    record { tv_sec = p / 1000; tv_nsec = (p * 1000000) % 2 ^ 32 % 1000000000 }

-- The part of the loop behind the `switch`.
unfoldable pub blink : Thread → Thread × Action
unfolding delay
blink t =
    let led_count = (t.led_count + 1) % 2 ^ 32 in
    if t.active
    then (
      record t { led_count = led_count },
      if led_count % 2 == 1 then led_on (delay t.on_period) else led_off (delay t.off_period),
    )
    else (t, idle)

-- `ThreadBody`: each entry says what a round finds in the queue. The result is the list of what the
-- rounds did, up to the shutdown or to the last entry.
unfoldable pub thread_body : List (Option Message) → Thread → List Action
thread_body [] t = []
thread_body (none ∷ rest) t = (blink t).1 ∷ thread_body rest (blink t).0
thread_body (some m ∷ rest) t = elim (handle m t) [
  | none ↦ []
  | some t' ↦ (blink t').1 ∷ thread_body rest (blink t').0
]

-- `setPeriod`, with the message that it writes; `none` is the refusal of a period of 0.
unfoldable pub set_period : ℕ → ℕ → Option Message
set_period on off = if on == 0 || off == 0 then none else some (set_rate on off)
