-- ===== src/Report/Objects.antt =====
-- posix_api: mutex_attr_report.c, condvar_attr_report.c, barrier_attr_report.c, rwlock_attr_report.c
-- and mqueue_attr_report.c, for RTEMS, where `PTHREAD_MUTEX_DEFAULT` is a type of its own, mutexes are
-- neither robust nor stalled, and barriers and protocols are supported.
use rtems_examples.Common.{ℕ, ◌==◌, if◌then◌else◌}
use rtems_examples.Report.{
  Answer, Name, process_private, process_shared, mutex_default, mutex_errorcheck, mutex_normal,
  mutex_recursive, prio_none, prio_inherit, prio_protect, clock_monotonic, clock_process_cputime_id,
  clock_realtime, clock_thread_cputime_id, unknown, mq_maxmsg, mq_msgsize, shared_by, mutex_type,
  mutex_protocol, clock, start_of_report, number, named, robust_not_supported,
  stalled_not_supported, Report, emit, asserted, ended,
}

pub record Constants : Type 0 where
  pub private : ℕ
  pub shared : ℕ
  pub default : ℕ
  pub errorcheck : ℕ
  pub normal : ℕ
  pub recursive : ℕ
  pub none : ℕ
  pub inherit : ℕ
  pub protect : ℕ
  pub monotonic : ℕ
  pub process_cputime : ℕ
  pub realtime : ℕ
  pub thread_cputime : ℕ

module _ (c : Constants) where
  pub shared_name : ℕ → Name
  shared_name shared =
      if shared == c.private
      then process_private
      else if shared == c.shared
      then process_shared
      else unknown

  -- `print_shared` of the mutexes.
  pub print_shared : Answer → Report → Report
  print_shared a rest = asserted a.rc (emit (named shared_by (shared_name a.value)) rest)

  pub type_name : ℕ → Name
  type_name type =
      if type == c.default
      then mutex_default
      else if type == c.errorcheck
      then mutex_errorcheck
      else if type == c.normal
      then mutex_normal
      else if type == c.recursive
      then mutex_recursive
      else unknown

  pub print_type : Answer → Report → Report
  print_type a rest = emit robust_not_supported (
      emit stalled_not_supported (asserted a.rc (emit (named mutex_type (type_name a.value)) rest)))

  pub protocol_name : ℕ → Name
  protocol_name protocol =
      if protocol == c.none
      then prio_none
      else if protocol == c.inherit
      then prio_inherit
      else if protocol == c.protect
      then prio_protect
      else unknown

  pub print_protocol : Answer → Report → Report
  print_protocol a rest = asserted a.rc (emit (named mutex_protocol (protocol_name a.value)) rest)

  unfoldable pub mutex_report : (init_rc : ℕ) (type shared protocol : Answer) → Report
  unfolding print_type print_shared print_protocol
  mutex_report init_rc type shared protocol =
      emit start_of_report
        (asserted init_rc (print_type type (print_shared shared (print_protocol protocol ended))))

  -- condvar_attr_report.c
  pub print_cond_shared : Answer → Report → Report
  print_cond_shared a rest = asserted a.rc (emit (named shared_by (shared_name a.value)) rest)

  pub clock_name : ℕ → Name
  clock_name id =
      if id == c.monotonic
      then clock_monotonic
      else if id == c.process_cputime
      then clock_process_cputime_id
      else if id == c.realtime
      then clock_realtime
      else if id == c.thread_cputime
      then clock_thread_cputime_id
      else unknown

  pub print_clock : Answer → Report → Report
  print_clock a rest = asserted a.rc (emit (named clock (clock_name a.value)) rest)

  unfoldable pub condvar_report : (init_rc : ℕ) (shared time : Answer) → Report
  unfolding print_cond_shared print_clock
  condvar_report init_rc shared time =
      emit start_of_report (asserted init_rc (print_cond_shared shared (print_clock time ended)))

  -- barrier_attr_report.c
  unfoldable pub barrier_report : (init_rc : ℕ) (shared : Answer) → Report
  unfolding shared_name
  barrier_report init_rc shared = emit start_of_report (
      asserted init_rc
        (asserted shared.rc (emit (named shared_by (shared_name shared.value)) ended)))

  -- rwlock_attr_report.c
  unfoldable pub rwlock_report : (init_rc : ℕ) (shared : Answer) → Report
  unfolding shared_name
  rwlock_report init_rc shared = emit start_of_report (
      asserted init_rc
        (asserted shared.rc (emit (named shared_by (shared_name shared.value)) ended)))

-- mqueue_attr_report.c; `open_rc` is 0 when `mq_open` returned a queue. What `perror` writes when it
-- did not is left out.
pub print_attr : (rc maxmsg msgsize : ℕ) → Report → Report
print_attr rc maxmsg msgsize rest =
    asserted rc (emit (number mq_maxmsg maxmsg) (emit (number mq_msgsize msgsize) rest))

unfoldable pub mqueue_report : (open_rc rc maxmsg msgsize : ℕ) → Report
unfolding print_attr
mqueue_report open_rc rc maxmsg msgsize =
    emit start_of_report (asserted open_rc (print_attr rc maxmsg msgsize ended))
