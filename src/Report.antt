-- ===== src/Report.antt =====
-- posix_api: the programs that report the default attributes of POSIX objects.
-- What the calls of the kernel return is an `Answer`; the values of the constants, which belong to
-- the kernel, are arguments. A report stops where an `assert` fails.
pub mod Threads
pub mod Objects
pub mod Scheduler
pub mod Complete
mod Tests
use rtems_examples.Common.{ℕ, Bool, true, false, List, [], ◌∷◌, ◌==◌, if◌then◌else◌}

-- The return code of a call, and what it stores.
pub record Answer : Type 0 where
  pub rc : ℕ
  pub value : ℕ

-- The names of constants that the reports print.
pub data Name : Type 0 where
  inherit_sched : Name
  explicit_sched : Name
  scope_system : Name
  scope_process : Name
  create_joinable : Name
  create_detached : Name
  sched_other : Name
  sched_fifo : Name
  sched_rr : Name
  sched_sporadic : Name
  process_private : Name
  process_shared : Name
  mutex_default : Name
  mutex_errorcheck : Name
  mutex_normal : Name
  mutex_recursive : Name
  prio_none : Name
  prio_inherit : Name
  prio_protect : Name
  clock_monotonic : Name
  clock_process_cputime_id : Name
  clock_realtime : Name
  clock_thread_cputime_id : Name
  unknown : Name

-- What a line is about.
pub data Topic : Type 0 where
  stack_size : Topic
  stack_address : Topic
  stack_guard_size : Topic
  scheduler_priority : Topic
  sporadic_low_priority : Topic
  sporadic_period : Topic
  sporadic_initial_budget : Topic
  sporadic_max_replenishments : Topic
  mq_maxmsg : Topic
  mq_msgsize : Topic
  inherit_scheduler : Topic
  thread_scope : Topic
  detach_state : Topic
  scheduler_policy : Topic
  shared_by : Topic
  mutex_type : Topic
  mutex_protocol : Topic
  clock : Topic

pub data Line : Type 0 where
  start_of_report : Line
  end_of_report : Line
  number : Topic → ℕ → Line
  named : Topic → Name → Line
  robust_not_supported : Line
  stalled_not_supported : Line

pub record Report : Type 0 where
  pub lines : List Line
  pub finished : Bool

abbrev pub emit : Line → Report → Report
emit line r = record r { lines = line ∷ r.lines }

-- `assert( rc == 0 )` in front of the rest of a report.
abbrev pub asserted : ℕ → Report → Report
asserted rc r = if rc == 0 then r else record { lines = []; finished = false }

abbrev pub ended : Report
ended = record { lines = end_of_report ∷ []; finished = true }
