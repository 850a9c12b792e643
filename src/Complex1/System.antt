-- ===== src/Complex1/System.antt =====
-- led/complex1/ledServer.h: the LED server and its clients on the message queue between them.
-- The calls of the clients and the rounds of the server's loop come in any order. The pthread calls
-- return the statuses of an `Os`, and a buffer made by `new` holds `blank` at first.
pub mod Rounds
mod Order
pub mod Lifetime
mod Tests
use rtems_examples.Common.{ℕ, Bool, true, false, Option, none, some, List, [], ◌∷◌, if◌then◌else◌}
use rtems_examples.Complex1.Queue.{
  M, Os, Outcome, returned, undefined, pure, ◌>>=◌, write, read, is_available,
}
use rtems_examples.Complex1.Server.{Message, Thread, Action, handle, blink}

-- A call of `start`, `stop`, `setPeriod` or the `Write` of the destructor, with its message, and a
-- round of `ThreadBody`. The sleep of the destructor is the rounds in front of its `delete mQueue`.
pub data Event : Type 0 where
  calls : Message → Event
  runs : Event

-- The locals of `ThreadBody`: the message read last, and what it set.
abbrev pub Locals : Type 0
Locals = Message × Thread

-- The `switch` and the part behind it; `none` leaves the loop.
pub act_on : Message → Thread → Option (Locals × Action)
act_on m t = elim (handle m t) [
  | none ↦ none
  | some t' ↦ let (after, action) = blink t' in some ((m, after), action)
]

-- A `Read` that returns false leaves the message as it was.
pub read_message : Option Message → Message → Message
read_message none m = m
read_message (some received) m = received

-- Behind `delete mQueue`: a call, or a round of a server that has not left its loop, uses a queue that
-- is not there any more.
pub run_deleted : List Event → Option Locals → Outcome (List Action)
run_deleted [] server = returned []
run_deleted (calls m ∷ later) server = undefined
run_deleted (runs ∷ later) none = run_deleted later none
run_deleted (runs ∷ later) (some locals) = undefined

module _ (os : Os) (blank : Message) (storage : ℕ) where
  -- A round of the loop behind `IsAvailable`.
  pub round_behind : Bool → Locals → M Message (Option (Locals × Action))
  unfolding act_on read_message
  round_behind true (m, t) = do
    received ← read os [] storage none
    pure (act_on (read_message received m) t)
  round_behind false (m, t) = let (after, action) = blink t in pure (some ((m, after), action))

  pub server_round : Locals → M Message (Option (Locals × Action))
  unfolding round_behind
  server_round locals = do available ← is_available os; round_behind available locals

  -- What the rounds do to the LED; a server that has left its loop does nothing. Behind `events` the
  -- destructor deletes the queue, and `later` is what comes then.
  pub run_system : List Event → List Event → Option Locals → M Message (List Action)
  unfolding server_round run_deleted
  run_system later [] server = λ q. (run_deleted later server, q)
  run_system later (calls m ∷ events) server = do
    status ← write os blank none m
    run_system later events server
  run_system later (runs ∷ events) none = run_system later events none
  run_system later (runs ∷ events) (some locals) = server_round locals >>= λ round. elim round [
    | none ↦ run_system later events none
    | some (after, action) ↦
        run_system later events (some after) >>= λ actions. pure (action ∷ actions)
  ]
