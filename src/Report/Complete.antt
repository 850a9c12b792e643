-- ===== src/Report/Complete.antt =====
-- The reports of posix_api: when they are complete, and what can be read from them.
use rtems_examples.Common.{ℕ, ◌≡◌, arith, ◌&&◌, ◌==◌}
use rtems_examples.Report.{Answer}
use rtems_examples.Report.Threads
use rtems_examples.Report.Threads.{Attributes, thread_report, policy_name, print_stack_info}
use rtems_examples.Report.Objects
use rtems_examples.Report.Objects.{
  mutex_report, condvar_report, barrier_report, rwlock_report, mqueue_report,
}

-- The report on threads reaches its end exactly when each of the eight calls returns 0.
pub thread_report-finished :
    (c : Threads.Constants) (a : Attributes)
    → (thread_report c a).finished ≡ (
        a.init_rc == 0
        && a.stack_rc == 0
        && a.guardsize.rc == 0
        && a.inheritsched.rc == 0
        && a.scope.rc == 0
        && a.detachstate.rc == 0
        && a.schedpolicy.rc == 0
        && a.schedparam_rc == 0)
unfolding thread_report
thread_report-finished c a = ground arith

-- The reports on mutexes, condition variables, barriers, locks and message queues reach their ends
-- exactly when each of their calls returns 0.
pub object_reports_finished :
    (c : Objects.Constants) (rc n m : ℕ) (x y z : Answer)
    → ((mutex_report c rc x y z).finished ≡ (rc == 0 && x.rc == 0 && y.rc == 0 && z.rc == 0))
      × ((condvar_report c rc x y).finished ≡ (rc == 0 && x.rc == 0 && y.rc == 0))
      × ((barrier_report c rc x).finished ≡ (rc == 0 && x.rc == 0))
      × ((rwlock_report c rc x).finished ≡ (rc == 0 && x.rc == 0))
      × ((mqueue_report rc x.rc n m).finished ≡ (rc == 0 && x.rc == 0))
unfolding mutex_report condvar_report barrier_report rwlock_report mqueue_report
object_reports_finished c rc n m x y z =
    (ground arith, ground arith, ground arith, ground arith, ground arith)
