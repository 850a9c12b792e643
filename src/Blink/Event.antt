-- ===== src/Blink/Event.antt =====
-- led/event_server/init.c: a task sends one of two events once a second, and a server switches the
-- LED by the events that it receives.
-- The events sent to a task are pending until it receives them, all of them at once, and an event that
-- is pending already is not counted. No assumption is made on time: between two sends the server may
-- have run or not. Calls that fail only print a message.
pub mod Order
mod Tests
use rtems_examples.Common.{ℕ, zero, suc, ◌+◌, ◌≡◌, List, [], ◌∷◌}
use rtems_examples.Blink.{Led, off, on, by_count, next_count}

-- An event set of `EVENT_LED_OFF` and `EVENT_LED_ON`.
pub data Events : Type 0 where
  no_event : Events
  event : Led → Events
  both : Events

pub data Server : Type 0 where
  at_receive : Server
  waiting : Server
  received : Events → Server

pub record State : Type 0 where
  -- The sender's `count`.
  pub count : ℕ
  pub server : Server
  pub pending : Events
  -- The last switch is in front.
  pub leds : List Led
  -- How many incorrect event sets were reported.
  pub incorrect : ℕ

pub add_event : Led → Events → Events
add_event led no_event = event led
add_event off (event off) = event off
add_event off (event on) = both
add_event on (event off) = both
add_event on (event on) = event on
add_event led both = both

-- `rtems_event_send`; a server that waits gets the event at once.
pub send_event : Led → Server → State → State
unfolding add_event
send_event led waiting s = record s { server = received (event led) }
send_event led at_receive s = record s { pending = add_event led s.pending }
send_event led (received events) s = record s { pending = add_event led s.pending }

-- A round of the sender's loop, up to the sleep at its end.
pub send_step : State → State
unfolding send_event
send_step s =
    let t = send_event (by_count s.count) s.server s in record t { count = next_count t.count }

-- `rtems_event_receive` on the events that are pending.
pub receive_event : Events → State → State
receive_event no_event s = record s { server = waiting }
receive_event (event led) s = record s { server = received (event led); pending = no_event }
receive_event both s = record s { server = received both; pending = no_event }

-- The tests behind the receive.
pub handle_events : Events → State → State
handle_events no_event s = record s { server = at_receive; incorrect = suc s.incorrect }
handle_events (event led) s = record s { server = at_receive; leds = led ∷ s.leds }
handle_events both s = record s { server = at_receive; incorrect = suc s.incorrect }

pub server_step : Server → State → State
unfolding receive_event handle_events
server_step at_receive s = receive_event s.pending s
server_step waiting s = s
server_step (received events) s = handle_events events s

pub data Step : State → State → Type 0 where
  sends : (s : State) → Step s (send_step s)
  serves : (s : State) → Step s (server_step s.server s)

pub data Reach (s : State) : State → Type 0 where
  here : Reach s s
  next : {t u : State} → Reach s t → Step t u → Reach s u

unfoldable pub start : State
start = record { count = 0; server = at_receive; pending = no_event; leds = []; incorrect = 0 }
