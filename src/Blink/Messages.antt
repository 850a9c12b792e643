-- ===== src/Blink/Messages.antt =====
-- led/msg_server/init.c and led/posix_message_server/test.c: a task sends its count as a message once
-- a second, and a server switches the LED by the count that it receives.
-- A message for a server that waits is handed to it. A task runs from one call of the kernel to the
-- next, and the sender may wake at any time, also while the server is behind with the messages.
pub mod Alternation
mod Tests
use rtems_examples.Common.{
  ℕ, zero, suc, ◌+◌, ◌≡◌, Bool, true, false, List, [], ◌∷◌, ◌++◌, ltb, if◌then◌else◌,
}
use rtems_examples.Common.Lists.{length}
use rtems_examples.Blink.{Led, by_count, next_count}

pub data Sender : Type 0 where
  at_send : Sender
  asleep : Sender

pub data Server : Type 0 where
  at_receive : Server
  waiting : Server
  received : ℕ → Server

pub record State : Type 0 where
  pub sender : Sender
  pub count : ℕ
  pub server : Server
  pub queue : List ℕ
  -- The last switch is in front.
  pub leds : List Led
  -- How many sends reported a full queue.
  pub failed : ℕ

module _ (capacity : ℕ) where
  -- `rtems_message_queue_send`.
  pub deliver : ℕ → Server → State → State
  deliver message waiting s = record s { server = received message }
  deliver message at_receive s =
      if ltb (length s.queue) capacity
      then record s { queue = s.queue ++ message ∷ [] }
      else record s { failed = s.failed + 1 }
  deliver message (received other) s =
      if ltb (length s.queue) capacity
      then record s { queue = s.queue ++ message ∷ [] }
      else record s { failed = s.failed + 1 }

  -- A round of the sender's loop, up to the sleep at its end.
  pub send_step : State → State
  unfolding deliver
  send_step s =
      let t = deliver s.count s.server s in record t { sender = asleep; count = next_count t.count }

-- `rtems_message_queue_receive`.
pub take_message : List ℕ → State → State
take_message [] s = record s { server = waiting }
take_message (message ∷ queue) s = record s { server = received message; queue = queue }

-- The server's loop: it receives a count, and it acts on one.
pub server_step : Server → State → State
unfolding take_message
server_step at_receive s = take_message s.queue s
server_step waiting s = s
server_step (received count) s = record s { server = at_receive; leds = by_count count ∷ s.leds }

abbrev pub CanRun : Server → Type 0
CanRun at_receive = Unit
CanRun waiting = ⊥
CanRun (received count) = Unit

pub data Step (capacity : ℕ) : State → State → Type 0 where
  sends : (s : State) → s.sender ≡ at_send → Step capacity s (send_step capacity s)
  serves : (s : State) → CanRun s.server → Step capacity s (server_step s.server s)
  wakes : (s : State) → s.sender ≡ asleep → Step capacity s (record s { sender = at_send })

pub data Reach (capacity : ℕ) (s : State) : State → Type 0 where
  here : Reach capacity s s
  next : {t u : State} → Reach capacity s t → Step capacity t u → Reach capacity s u

pub start : State
start = record {
  sender = at_send;
  count = 0;
  server = at_receive;
  queue = [];
  leds = [];
  failed = 0;
}
