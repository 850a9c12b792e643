-- ===== src/Blink/Condition.antt =====
-- led/posix_cond_server/test.c: a thread signals a condition variable once a second, and a server
-- that waits for it switches the LED by the number of its waits.
-- A wait does not end without a signal. A thread runs from one call of the kernel to the next, and
-- the sleeper may wake at any time, also while the server is not in its wait. Calls that fail only
-- print a message.
pub mod Signals
pub mod Period
mod Tests
use rtems_examples.Common.{ℕ, zero, suc, ◌+◌, ◌^◌, ◌≡◌, List, [], ◌∷◌, ltb, if◌then◌else◌}
use rtems_examples.Blink.{Led, by_count}

pub data Main : Type 0 where
  asleep : Main
  at_signal : Main

pub data Server : Type 0 where
  at_lock : Server
  at_wait : Server
  waiting : Server
  woken : Server
  -- `count++` at the largest `int`, which C leaves undefined.
  overflowed : Server

pub record State : Type 0 where
  pub main : Main
  pub server : Server
  -- The server's `count`.
  pub count : ℕ
  -- The last switch is in front.
  pub leds : List Led
  -- How many signals found nobody waiting.
  pub lost : ℕ
  -- How many signals there were.
  pub signalled : ℕ

-- `pthread_cond_signal`, which is forgotten where nobody waits.
pub cond_signal : Server → State → State
cond_signal waiting s = record s { server = woken }
cond_signal at_lock s = record s { lost = s.lost + 1 }
cond_signal at_wait s = record s { lost = s.lost + 1 }
cond_signal woken s = record s { lost = s.lost + 1 }
cond_signal overflowed s = record s { lost = s.lost + 1 }

-- The loop of the signalling task behind its sleep.
pub signal_step : State → State
unfolding cond_signal
signal_step s =
    let t = cond_signal s.server s in record t { main = asleep; signalled = s.signalled + 1 }

-- The server: it locks the mutex, waits, and switches the LED.
pub serve_step : Server → State → State
serve_step at_lock s = record s { server = at_wait }
serve_step at_wait s = record s { server = waiting }
serve_step waiting s = s
serve_step woken s =
    let switched = record s { leds = by_count s.count ∷ s.leds } in
    if ltb (suc s.count) (2 ^ 31)
    then record switched { server = at_wait; count = suc s.count }
    else record switched { server = overflowed }
serve_step overflowed s = s

abbrev pub CanRun : Server → Type 0
CanRun at_lock = Unit
CanRun at_wait = Unit
CanRun waiting = ⊥
CanRun woken = Unit
CanRun overflowed = ⊥

pub data Step : State → State → Type 0 where
  signals : (s : State) → s.main ≡ at_signal → Step s (signal_step s)
  serves : (s : State) → CanRun s.server → Step s (serve_step s.server s)
  wakes : (s : State) → s.main ≡ asleep → Step s (record s { main = at_signal })

pub data Reach (s : State) : State → Type 0 where
  here : Reach s s
  next : {t u : State} → Reach s t → Step t u → Reach s u

unfoldable pub start : State
start = record { main = asleep; server = at_lock; count = 0; leds = []; lost = 0; signalled = 0 }
