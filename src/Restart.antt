-- ===== src/Restart.antt =====
-- posix_api/psx_task_restart/psx_task_restart.c: a thread that fails asks another one by an event to
-- restart it.
-- The threads run in any order. A step is one directive of a thread with what stands before it; the
-- directives succeed, and where `main` wakes up before the end its assertion fails. An event that is
-- sent stays pending until it is received.
mod Once
mod Tests
use rtems_examples.Common.{ℕ, suc, ◌≡◌, ◌≢◌, Bool, true, false}

pub data Health : Type 0 where
  created : Health
  at_receive : Health
  at_restart : Health

-- The argument that the faulting thread was started with last is 0 or 1.
pub data Faulting : Type 0 where
  absent : Faulting
  entered_0 : Faulting
  entered_1 : Faulting
  -- Behind the event, in the loop that it should not get to the end of.
  in_loop : Faulting

pub data Program : Type 0 where
  running : Program
  succeeded : Program
  assert_failed : Program

pub record State : Type 0 where
  pub health : Health
  pub faulting : Faulting
  -- `HEALTH_EVENT` is pending.
  pub event : Bool
  pub program : Program
  pub restart_count : ℕ
  pub event_count : ℕ

-- `start_faulting_thread`
pub start_faulting_thread : State → State
start_faulting_thread s = record s { faulting = entered_0 }

-- `Health_Thread` up to its receive, the receive, and the restart.
pub enter_health : State → State
enter_health s = record s { health = at_receive }

pub receive_event : State → State
receive_event s = record s { health = at_restart; event = false }

pub restart_faulting : State → State
restart_faulting s = record s {
  health = at_receive;
  faulting = entered_1;
  restart_count = suc s.restart_count;
}

-- `Faulting_thread` with the argument 0 and with the argument 1.
pub send_event : State → State
send_event s = record s { faulting = in_loop; event = true; event_count = suc s.event_count }

pub finish : State → State
finish s = record s { program = succeeded }

pub data Step : State → State → Type 0 where
  starts :
      (s : State) → s.program ≡ running → s.faulting ≡ absent → Step s (start_faulting_thread s)
  enters : (s : State) → s.program ≡ running → s.health ≡ created → Step s (enter_health s)
  receives :
      (s : State)
      → s.program ≡ running
      → s.health ≡ at_receive
      → s.event ≡ true
      → Step s (receive_event s)
  restarts : (s : State) → s.program ≡ running → s.health ≡ at_restart → Step s (restart_faulting s)
  sends : (s : State) → s.program ≡ running → s.faulting ≡ entered_0 → Step s (send_event s)
  finishes : (s : State) → s.program ≡ running → s.faulting ≡ entered_1 → Step s (finish s)
  -- `main` comes out of its sleep, which follows on `start_faulting_thread`.
  main_wakes :
      (s : State)
      → s.program ≡ running
      → s.faulting ≢ absent
      → Step s (record s { program = assert_failed })

pub data Reach (s : State) : State → Type 0 where
  here : Reach s s
  next : {t u : State} → Reach s t → Step t u → Reach s u

-- Behind `start_health_thread`.
unfoldable pub start : State
start = record {
  health = created;
  faulting = absent;
  event = false;
  program = running;
  restart_count = 0;
  event_count = 0;
}
