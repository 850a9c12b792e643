-- ===== src/SignalMask/Tests.antt =====
-- A run of posix_api/psx_initial_sigmask/main.c on a system where a thread starts with no signal
-- blocked.
use rtems_examples.Common.{some, [], ◌∷◌, ◌≡◌, refl}
use rtems_examples.SignalMask.{Calls, empty, main, thread1, thread2, main_body}
use rtems_examples.SignalMask.Inherited.{main_body-passes}

abbrev forgetful : Calls
forgetful = record {
  sigemptyset_rc = 0;
  sigaddset_rc = 0;
  sigprocmask_rc = 0;
  pthread_create_rc = 0;
  empty_set = 0 ∷ 0 ∷ [];
  add = λ signo set. signo ∷ 0 ∷ [];
  block = λ mask set. set;
  new_mask = λ mask. 0 ∷ 0 ∷ [];
}

main_body-passes_example :
    main_body forgetful 8 2 (record { mask = 0 ∷ 0 ∷ []; main_sigmask = 0 ∷ 0 ∷ []; output = [] })
    ≡ some (record {
      mask = 8 ∷ 0 ∷ [];
      main_sigmask = 0 ∷ 0 ∷ [];
      output =
          (empty, 0 ∷ 0 ∷ [])
          ∷ (main, 0 ∷ 0 ∷ [])
          ∷ (main, 0 ∷ 0 ∷ [])
          ∷ (thread1, 0 ∷ 0 ∷ [])
          ∷ (main, 0 ∷ 0 ∷ [])
          ∷ (thread2, 0 ∷ 0 ∷ [])
          ∷ [];
    })
main_body-passes_example =
    main_body-passes forgetful 8 2 refl refl refl refl (0 ∷ 0 ∷ []) (0 ∷ 0 ∷ [])
