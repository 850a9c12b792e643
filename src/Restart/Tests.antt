-- ===== src/Restart/Tests.antt =====
-- A run of posix_api/psx_task_restart/psx_task_restart.c to its end.
use rtems_examples.Common.{◌≡◌, ◌≢◌, ◌≤◌, ◌⊎◌, false, refl}
use rtems_examples.Restart.{
  at_receive, entered_1, succeeded, State, start_faulting_thread, enter_health, receive_event,
  restart_faulting, send_event, finish, starts, enters, receives, restarts, sends, finishes, Reach,
  here, next, start,
}
use rtems_examples.Restart.Once.{restart-Reach-once}

abbrev at_end : State
at_end = record {
  health = at_receive;
  faulting = entered_1;
  event = false;
  program = succeeded;
  restart_count = 1;
  event_count = 1;
}

end-run : Reach start at_end
unfolding start start_faulting_thread enter_health receive_event restart_faulting send_event finish
end-run =
    let a = enter_health start in
    let b = start_faulting_thread a in
    let c = send_event b in
    let d = receive_event c in
    let e = restart_faulting d in
    next
      (next
        (next
          (next (next (next here (enters start refl refl)) (starts a refl refl))
            (sends b refl refl))
          (receives c refl refl refl))
        (restarts d refl refl))
      (finishes e refl refl)

restart-Reach-once_example :
    (at_end.restart_count ≤ at_end.event_count)
    × (at_end.event_count ≤ 1)
    × ((at_end.program ≢ succeeded) ⊎ (at_end.restart_count ≡ 1))
restart-Reach-once_example = restart-Reach-once end-run
