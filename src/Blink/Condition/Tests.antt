-- ===== src/Blink/Condition/Tests.antt =====
-- Runs of led/posix_cond_server/test.c up to the first switch, and of led/ratemon_cond_server/test.c.
use rtems_examples.Common.{refl, [], ◌∷◌}
use rtems_examples.Blink.{off}
use rtems_examples.Blink.Condition.{
  State, asleep, at_lock, at_wait, signal_step, signals, Reach, here, next,
}
use rtems_examples.Blink.Condition.Period.{period_start}

abbrev first_switch : State
first_switch = record {
  main = asleep;
  server = at_wait;
  count = 1;
  leds = off ∷ [];
  lost = 0;
  signalled = 1;
}

-- In ratemon_cond_server the task of the period may signal before the server has locked the mutex.
abbrev signalled_early : State
signalled_early = record {
  main = asleep;
  server = at_lock;
  count = 0;
  leds = [];
  lost = 1;
  signalled = 1;
}

early-run : Reach period_start signalled_early
unfolding period_start signal_step
early-run = next here (signals period_start refl)
