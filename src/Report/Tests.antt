-- ===== src/Report/Tests.antt =====
-- Reports of posix_api at concrete answers.
use rtems_examples.Common.{◌≡◌, refl, [], ◌∷◌}
use rtems_examples.Report.{Answer, start_of_report, end_of_report, named, shared_by, process_shared}
use rtems_examples.Report.Threads
use rtems_examples.Report.Threads.{thread_report, policy_name}
use rtems_examples.Report.Objects
use rtems_examples.Report.Objects.{
  mutex_report, condvar_report, barrier_report, rwlock_report, mqueue_report,
}

abbrev constants : Threads.Constants
constants = record {
  inherit = 1;
  explicit = 2;
  system = 1;
  process = 0;
  joinable = 1;
  detached = 0;
  other = 0;
  fifo = 1;
  rr = 2;
  sporadic = 4;
}

abbrev object_constants : Objects.Constants
object_constants = record {
  private = 0;
  shared = 1;
  default = 3;
  errorcheck = 2;
  normal = 0;
  recursive = 1;
  none = 0;
  inherit = 1;
  protect = 2;
  monotonic = 4;
  process_cputime = 2;
  realtime = 1;
  thread_cputime = 3;
}

abbrev good : Answer
good = record { rc = 0; value = 1 }

-- The guard size cannot be had.
abbrev attributes : Threads.Attributes
attributes = record {
  init_rc = 0;
  stack_rc = 0;
  addr = 4096;
  size = 8192;
  guardsize = record { rc = 22; value = 0 };
  inheritsched = good;
  scope = good;
  detachstate = good;
  schedpolicy = good;
  schedparam_rc = 0;
  sched = record {
    sched_priority = 2;
    ss_low_priority = 0;
    ss_repl_period = 0;
    ss_init_budget = 0;
    ss_max_repl = 0;
  };
}

barrier_shared :
    (barrier_report object_constants 0 good).lines
    ≡ start_of_report ∷ named shared_by process_shared ∷ end_of_report ∷ []
unfolding barrier_report
barrier_shared = refl
