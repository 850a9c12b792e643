-- ===== src/Blink/Condition/Period.antt =====
-- led/ratemon_cond_server/test.c: the signals come from a rate monotonic period. The server and the
-- step of a signal are those of posix_cond_server, but the first call for the period returns at once,
-- so the first signal is due before the server has run.
use rtems_examples.Common.{ℕ, ◌≡◌, ◌≤◌, []}
use rtems_examples.Blink.Condition.{
  Main, asleep, at_signal, Server, at_lock, at_wait, waiting, woken, overflowed, State, Step,
  signals, serves, wakes, Reach, here, next,
}

-- Both tasks at the beginning of their loops.
unfoldable pub period_start : State
period_start = record {
  main = at_signal;
  server = at_lock;
  count = 0;
  leds = [];
  lost = 0;
  signalled = 0;
}

-- Steps in which the server is back in its wait whenever the period ends.
abbrev pub IsOnTime : {s t : State} → Step s t → Type 0
IsOnTime (signals s e) = Unit
IsOnTime (serves s c) = Unit
IsOnTime (wakes s e) = s.server ≡ waiting

abbrev pub Prompt : {s t : State} → Reach s t → Type 0
Prompt here = Unit
Prompt (next r st) = Prompt r × IsOnTime st

-- Before the first signal, and behind it: the task that is about to signal finds the server waiting.
abbrev Expected : Main → Server → ℕ → ℕ → Type 0
Expected asleep sv lost signalled = lost ≤ 1
Expected at_signal at_lock lost signalled = (lost ≡ 0) × (signalled ≡ 0)
Expected at_signal at_wait lost signalled = (lost ≡ 0) × (signalled ≡ 0)
Expected at_signal waiting lost signalled = lost ≤ 1
Expected at_signal woken lost signalled = ⊥
Expected at_signal overflowed lost signalled = ⊥

abbrev IsExpected : State → Type 0
IsExpected s = Expected s.main s.server s.lost s.signalled
