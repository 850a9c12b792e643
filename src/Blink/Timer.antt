-- ===== src/Blink/Timer.antt =====
-- led/timer/init.c and led/timer_server/init.c: two timers that start themselves again.
-- `Timer1` is the identifier of the first; any other identifier counts as that of the second, as it
-- does in the source. The timers of timer_server are served when they are due.
pub mod Flags
pub mod Due
mod Tests
use rtems_examples.Common.{
  ℕ, zero, suc, ◌+◌, ◌*◌, ◌≡◌, Bool, true, false, Option, none, some, List, [], ◌∷◌, ◌==◌, leb,
  if◌then◌else◌,
}
use rtems_examples.Blink.{Led, off, on}

-- `led_do_print` and `led_value`, and the two locals of `LED_Change_Routine`.
pub record Shared : Type 0 where
  pub led_do_print : ℕ
  pub led_value : ℕ

pub record Frame : Type 0 where
  pub shared : Shared
  pub do_print : ℕ
  pub value : ℕ

module _ (timer1 : ℕ) where
  -- `Timer_Routine` of timer; that it fires again is in the events of a run.
  pub timer_routine : ℕ → Shared → Shared
  timer_routine id s = record { led_do_print = 1; led_value = if id == timer1 then 1 else 2 }

-- The four statements that the comment calls a critical section.
pub read_do_print : Frame → Frame
read_do_print f = record f { do_print = f.shared.led_do_print }

pub read_value : Frame → Frame
read_value f = record f { value = f.shared.led_value }

pub reset_do_print : Frame → Frame
reset_do_print f = record f { shared = record (f.shared) { led_do_print = 0 } }

pub reset_value : Frame → Frame
reset_value f = record f { shared = record (f.shared) { led_value = 0 } }

pub entered : Shared → Frame
entered s = record { shared = s; do_print = 0; value = 0 }

-- The switch, if there is one, and what is left in the shared variables.
pub act : Frame → Option Led × Shared
act f = (if f.do_print == 0 then none else if f.value == 1 then some off else some on, f.shared)

-- `LED_Change_Routine` with no timer in between.
pub led_change_routine : Shared → Option Led × Shared
unfolding read_do_print read_value reset_do_print reset_value entered act
led_change_routine s = act (reset_value (reset_do_print (read_value (read_do_print (entered s)))))

-- What happens in the loop of `Init`: a timer fires, or `LED_Change_Routine` is called.
pub data Happens : Type 0 where
  fires : ℕ → Happens
  polls : Happens

abbrev pub shown_first : Option Led → List Led → List Led
shown_first none ls = ls
shown_first (some led) ls = led ∷ ls

module _ (timer1 : ℕ) where
  -- The switches of a run of timer.
  pub run : List Happens → Shared → List Led
  unfolding led_change_routine timer_routine
  run [] s = []
  run (fires id ∷ es) s = run es (timer_routine timer1 id s)
  run (polls ∷ es) s = let (led, t) = led_change_routine s in shown_first led (run es t)

  -- `Init` of timer: both timers are run once by hand, then the loop.
  pub init : ℕ → List Happens → List Led
  unfolding run
  init timer2 es =
      run (fires timer1 ∷ polls ∷ fires timer2 ∷ polls ∷ es)
        (record { led_do_print = 0; led_value = 0 })

-- A switch with the tick at which it happens.
abbrev pub Timed : Type 0
Timed = ℕ × Led

module _ (timer1 hz : ℕ) where
  -- `Timer_Routine` of timer_server at a tick: the switch, and when it is to run again.
  pub server_routine : ℕ → ℕ → Led × ℕ
  server_routine id now = (if id == timer1 then off else on, now + 2 * hz)

  -- The timer server, for a number of rounds, from the ticks at which the two timers are due.
  pub serve : (timer2 rounds due1 due2 : ℕ) → List Timed
  unfolding server_routine
  serve timer2 zero due1 due2 = []
  serve timer2 (suc n) due1 due2 =
      let (led1, again1) = server_routine timer1 due1 in
      let (led2, again2) = server_routine timer2 due2 in
      let first = (due1, led1) ∷ serve timer2 n again1 due2 in
      let second = (due2, led2) ∷ serve timer2 n due1 again2 in
      if leb due1 due2 then first else second

  -- `Init` of timer_server, called at a tick.
  pub server_init : (timer2 rounds now : ℕ) → List Timed
  unfolding server_routine serve
  server_init timer2 rounds now =
      let (led1, due1) = server_routine timer1 now in
      let later = now + hz in
      let (led2, due2) = server_routine timer2 later in
      (now, led1) ∷ (later, led2) ∷ serve timer2 rounds due1 due2
