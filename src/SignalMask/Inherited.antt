-- ===== src/SignalMask/Inherited.antt =====
-- posix_api/psx_initial_sigmask/main.c: what the assertion on the inherited mask can find.
use rtems_examples.Common.{ℕ, zero, suc, true, some, List, [], ◌∷◌, ◌++◌, ◌≡◌, refl, arith}
use mathlib.Core.List.{append_assoc}
use rtems_examples.SignalMask.{
  Sigset, Calls, Name, empty, main, thread1, thread2, State, print_sigmask, block_sigmask,
  same_bytes, thread_body, create_thread, main_body,
}

module _ (calls : Calls) (sigusr1 sigset_nwords : ℕ) where
  same_bytes_self : (n : ℕ) (a : Sigset) → same_bytes calls sigusr1 sigset_nwords n a a ≡ true
  unfolding same_bytes
  same_bytes_self zero a = refl
  same_bytes_self (suc n) [] = refl
  same_bytes_self (suc n) (x ∷ a) = rw (same_bytes_self n a) (ground arith)

  module _ (e : calls.sigemptyset_rc ≡ 0) (a : calls.sigaddset_rc ≡ 0)
      (p : calls.sigprocmask_rc ≡ 0) (c : calls.pthread_create_rc ≡ 0) where
    -- The mask that the thread prints as that of `main` is its own.
    create_thread-own :
        (name : Name) (s : State)
        → create_thread calls sigusr1 sigset_nwords name s
          ≡ some (record s {
            main_sigmask = calls.new_mask s.mask;
            output = s.output ++ (main, calls.new_mask s.mask) ∷ (name, calls.new_mask s.mask) ∷ [];
          })
    unfolding create_thread thread_body print_sigmask
    create_thread-own name s =
        rw
          (
            c,
            e,
            p,
            same_bytes_self sigset_nwords (calls.new_mask s.mask),
            append_assoc s.output ((main, calls.new_mask s.mask) ∷ [])
                ((name, calls.new_mask s.mask) ∷ []),
          )
          refl

    print_sigmask-own :
        (name : Name) (own : Sigset) (output : List (Name × Sigset))
        → print_sigmask calls sigusr1 sigset_nwords name own output
          ≡ some (own, output ++ (name, own) ∷ [])
    unfolding print_sigmask
    print_sigmask-own name own output = rw (e, p) refl

    block_sigmask-own :
        (s : State)
        → let mask = calls.block s.mask (calls.add sigusr1 calls.empty_set) in
          block_sigmask calls sigusr1 sigset_nwords sigusr1 s
          ≡ some (record s { mask = mask; main_sigmask = mask })
    unfolding block_sigmask
    block_sigmask-own s = rw (e, a, p) refl

    -- Where all calls return 0 no assertion fails, whatever mask `pthread_create` gives to a thread,
    -- and each thread prints its own mask under the name of `main`.
    pub main_body-passes :
        (own before : Sigset)
        → let blocked = calls.block own (calls.add sigusr1 calls.empty_set) in
          let first = calls.new_mask own in
          let second = calls.new_mask blocked in
          main_body calls sigusr1 sigset_nwords
            (record { mask = own; main_sigmask = before; output = [] })
          ≡ some (record {
            mask = blocked;
            main_sigmask = second;
            output =
                (empty, own)
                ∷ (main, own)
                ∷ (main, first)
                ∷ (thread1, first)
                ∷ (main, second)
                ∷ (thread2, second)
                ∷ [];
          })
    unfolding main_body
    main_body-passes own before =
        let blocked = calls.block own (calls.add sigusr1 calls.empty_set) in
        let first = calls.new_mask own in
        let before_first : State = record {
          mask = own;
          main_sigmask = own;
          output = (empty, own) ∷ (main, own) ∷ [];
        } in
        let after_first : State = record {
          mask = own;
          main_sigmask = first;
          output = (empty, own) ∷ (main, own) ∷ (main, first) ∷ (thread1, first) ∷ [];
        } in
        rw
          (
            main_body,
            print_sigmask-own empty own [],
            print_sigmask-own main own ((empty, own) ∷ []),
            create_thread-own thread1 before_first,
            block_sigmask-own after_first,
          )
          (create_thread-own thread2
            (record after_first { mask = blocked; main_sigmask = blocked }))
