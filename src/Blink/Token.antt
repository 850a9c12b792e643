-- ===== src/Blink/Token.antt =====
-- led/sem_server/init.c and led/posix_mutex_server/test.c: two tasks that hand one token to each
-- other, a semaphore or a mutex, and switch the LED while they hold it.
-- A release gives the token to the other task if that waits for it. A task runs from one call of the
-- kernel to the next; a sleeper wakes only when no task can run, because the sleep of a second is
-- longer than all that the tasks do.
pub mod Holding
pub mod Alternation
mod Tests
use rtems_examples.Common.{
  ℕ, zero, suc, ◌+◌, ◌-◌, ◌≡◌, Bool, true, false, List, [], ◌∷◌, ◌&&◌, ltb, not, if◌then◌else◌,
}
use rtems_examples.Blink.{Led, off, on}

-- What a task does next, or what it waits for.
pub data At : Type 0 where
  at_switch : At
  asleep : At
  at_release : At
  at_obtain : At
  waiting : At

pub record State : Type 0 where
  pub main : At
  pub server : At
  pub free : ℕ
  -- The last switch is in front.
  pub leds : List Led

-- A task's own place, the other's, the token's count and the switches.
pub record Turn : Type 0 where
  pub mine : At
  pub other : At
  pub count : ℕ
  pub shown : List Led

-- `rtems_semaphore_release`.
pub release : At → ℕ → At × ℕ
release waiting n = (at_switch, n)
release at_switch n = (at_switch, n + 1)
release asleep n = (asleep, n + 1)
release at_release n = (at_release, n + 1)
release at_obtain n = (at_obtain, n + 1)

-- The loop that both tasks of both programs have, one step of it.
pub step : Led → At → At → ℕ → List Led → Turn
unfolding release
step led at_switch other n ls = record { mine = asleep; other = other; count = n; shown = led ∷ ls }
step led asleep other n ls = record { mine = asleep; other = other; count = n; shown = ls }
step led at_release other n ls =
    let (woken, m) = release other n in
    record { mine = at_obtain; other = woken; count = m; shown = ls }
step led at_obtain other n ls =
    if ltb 0 n
    then record { mine = at_switch; other = other; count = n - 1; shown = ls }
    else record { mine = waiting; other = other; count = n; shown = ls }
step led waiting other n ls = record { mine = waiting; other = other; count = n; shown = ls }

abbrev turn_of_main : Turn → State
turn_of_main t = record { main = t.mine; server = t.other; free = t.count; leds = t.shown }

abbrev turn_of_server : Turn → State
turn_of_server t = record { main = t.other; server = t.mine; free = t.count; leds = t.shown }

-- The task `Init` of sem_server and the thread `POSIX_Init` of posix_mutex_server.
unfoldable pub init_step : State → State
unfolding step
init_step s = turn_of_main (step off s.main s.server s.free s.leds)

-- `Test_task` of sem_server and `Server` of posix_mutex_server.
unfoldable pub test_step : State → State
unfolding step
test_step s = turn_of_server (step on s.server s.main s.free s.leds)

pub is_ready : At → Bool
is_ready at_switch = true
is_ready asleep = false
is_ready at_release = true
is_ready at_obtain = true
is_ready waiting = false

abbrev pub Idle : State → Type 0
Idle s = (is_ready s.main ≡ false) × (is_ready s.server ≡ false)

pub data Step : State → State → Type 0 where
  init_runs : (s : State) → is_ready s.main ≡ true → Step s (init_step s)
  test_runs : (s : State) → is_ready s.server ≡ true → Step s (test_step s)
  init_wakes : (s : State) → Idle s → s.main ≡ asleep → Step s (record s { main = at_release })
  test_wakes : (s : State) → Idle s → s.server ≡ asleep → Step s (record s { server = at_release })

pub data Reach (s : State) : State → Type 0 where
  here : Reach s s
  next : {t u : State} → Reach s t → Step t u → Reach s u

-- sem_server: the semaphore is created locked.
unfoldable pub sem_start : State
sem_start = record { main = at_switch; server = at_obtain; free = 0; leds = [] }

-- posix_mutex_server: the mutex is free, and either thread may be the first to lock it.
unfoldable pub mutex_start : State
mutex_start = record { main = at_obtain; server = at_obtain; free = 1; leds = [] }
