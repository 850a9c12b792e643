-- ===== src/Report/Threads.antt =====
-- posix_api/psx_pthread_report/pthread_attr_report.c
use rtems_examples.Common.{ℕ, ◌==◌, if◌then◌else◌}
use rtems_examples.Report.{
  Answer, Name, inherit_sched, explicit_sched, scope_system, scope_process, create_joinable,
  create_detached, sched_other, sched_fifo, sched_rr, sched_sporadic, unknown, stack_size,
  stack_address, stack_guard_size, scheduler_priority, sporadic_low_priority, sporadic_period,
  sporadic_initial_budget, sporadic_max_replenishments, inherit_scheduler, thread_scope,
  detach_state, scheduler_policy, start_of_report, number, named, Report, emit, asserted, ended,
}

-- The values of the constants.
pub record Constants : Type 0 where
  pub inherit : ℕ
  pub explicit : ℕ
  pub system : ℕ
  pub process : ℕ
  pub joinable : ℕ
  pub detached : ℕ
  pub other : ℕ
  pub fifo : ℕ
  pub rr : ℕ
  pub sporadic : ℕ

-- The `struct sched_param`, with a `struct timespec` in nanoseconds.
pub record SchedParam : Type 0 where
  pub sched_priority : ℕ
  pub ss_low_priority : ℕ
  pub ss_repl_period : ℕ
  pub ss_init_budget : ℕ
  pub ss_max_repl : ℕ

-- What the calls with a `pthread_attr_t` answer.
pub record Attributes : Type 0 where
  pub init_rc : ℕ
  pub stack_rc : ℕ
  pub addr : ℕ
  pub size : ℕ
  pub guardsize : Answer
  pub inheritsched : Answer
  pub scope : Answer
  pub detachstate : Answer
  pub schedpolicy : Answer
  pub schedparam_rc : ℕ
  pub sched : SchedParam

-- Each of these functions prints its lines in front of the rest of the report.
pub print_stack_info : Attributes → Report → Report
print_stack_info a rest = asserted a.stack_rc (
    emit (number stack_size a.size) (
      emit (number stack_address a.addr)
        (asserted a.guardsize.rc (emit (number stack_guard_size a.guardsize.value) rest))))

module _ (c : Constants) where
  pub inherit_name : ℕ → Name
  inherit_name sched =
      if sched == c.inherit
      then inherit_sched
      else if sched == c.explicit
      then explicit_sched
      else unknown

  pub print_inherit_scheduler : Attributes → Report → Report
  print_inherit_scheduler a rest =
      asserted a.inheritsched.rc
        (emit (named inherit_scheduler (inherit_name a.inheritsched.value)) rest)

  pub scope_name : ℕ → Name
  scope_name scope =
      if scope == c.system
      then scope_system
      else if scope == c.process
      then scope_process
      else unknown

  pub print_scope : Attributes → Report → Report
  print_scope a rest =
      asserted a.scope.rc (emit (named thread_scope (scope_name a.scope.value)) rest)

  pub detach_name : ℕ → Name
  detach_name state =
      if state == c.joinable
      then create_joinable
      else if state == c.detached
      then create_detached
      else unknown

  pub print_detach_state : Attributes → Report → Report
  print_detach_state a rest =
      asserted a.detachstate.rc (emit (named detach_state (detach_name a.detachstate.value)) rest)

  unfoldable pub policy_name : ℕ → Name
  policy_name policy =
      if policy == c.other
      then sched_other
      else if policy == c.fifo
      then sched_fifo
      else if policy == c.rr
      then sched_rr
      else if policy == c.sporadic
      then sched_sporadic
      else unknown

  pub print_sporadic : SchedParam → Report → Report
  print_sporadic sched rest = emit (number sporadic_low_priority sched.ss_low_priority) (
      emit (number sporadic_period sched.ss_repl_period) (
        emit (number sporadic_initial_budget sched.ss_init_budget)
          (emit (number sporadic_max_replenishments sched.ss_max_repl) rest)))

  pub print_sched_info : Attributes → Report → Report
  unfolding print_sporadic
  print_sched_info a rest = asserted a.schedpolicy.rc (
      asserted a.schedparam_rc (
        emit (named scheduler_policy (policy_name a.schedpolicy.value)) (
          emit (number scheduler_priority a.sched.sched_priority)
            (if a.schedpolicy.value == c.sporadic then print_sporadic a.sched rest else rest))))

  -- `main`
  unfoldable pub thread_report : Attributes → Report
  unfolding print_stack_info print_inherit_scheduler print_scope print_detach_state print_sched_info
  thread_report a = emit start_of_report (
      asserted a.init_rc (
        print_stack_info a (
          print_inherit_scheduler a
            (print_scope a (print_detach_state a (print_sched_info a ended))))))
