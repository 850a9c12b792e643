-- ===== src/Blink/Messages/Tests.antt =====
-- A run of led/msg_server/init.c.
use rtems_examples.Common.{[], ◌∷◌}
use rtems_examples.Blink.{off}
use rtems_examples.Blink.Messages.{State, asleep, at_receive}

-- The first count is queued, received and acted on.
abbrev first_shown : State
first_shown = record {
  sender = asleep;
  count = 1;
  server = at_receive;
  queue = [];
  leds = off ∷ [];
  failed = 0;
}
