-- ===== src/ThreadKey/Tests.antt =====
-- Orders of the threads of c11/c11_key01/test.c, and the theorem at one of them.
use rtems_examples.Common.{◌≡◌, ◌≢◌, ◌+◌, ◌⊎◌, inl, inr, refl, true, false, [], ◌∷◌}
use rtems_examples.Common.Lists.{All}
use rtems_examples.ThreadKey.{
  State, run_main, run_thread1, run_thread2, returned, in_turn, any, main_runs, thread1_runs, Reach,
  here, next, start,
}
use rtems_examples.ThreadKey.Turns.{IsOwn}
use rtems_examples.ThreadKey.Cells.{key-Reach-cells}

-- `main` up to its sleep.
abbrev asleep : State
asleep = run_main (run_main (run_main (run_main start)))

-- The first thread, then the second, then the end.
abbrev threads_gone : State
threads_gone =
    run_thread2 (run_thread2 (run_thread1 (run_thread2 (run_thread1 (run_thread1 asleep)))))

all_lines : (run_main (run_main (run_main threads_gone))).lines ≡ (1, 1) ∷ (2, 2) ∷ (128, 128) ∷ []
unfolding run_main run_thread1 run_thread2 start
all_lines = refl

abbrev early : State
early = run_thread1 (run_main start)

-- A thread that runs as soon as it is created finds no key.
too_early : (s : State) × Reach any start s × (s.failed ≡ true)
unfolding run_main run_thread1 start
too_early = (
  early,
  next (next here (main_runs start refl (λ e. cc) (inl refl)))
      (thread1_runs (run_main start) refl (λ e. cc) (inl refl)),
  refl,
)

abbrev first_set : State
first_set = run_thread1 asleep

reached : Reach in_turn start first_set
unfolding run_main run_thread1 start
reached =
    next
      (next
        (next
          (next (next here (main_runs start refl (λ e. cc) (inr (inl (λ e. cc)))))
            (main_runs (run_main start) refl (λ e. cc) (inr (inl (λ e. cc)))))
          (main_runs (run_main (run_main start)) refl (λ e. cc) (inr (inl (λ e. cc)))))
        (main_runs (run_main (run_main (run_main start))) refl (λ e. cc) (inr (inl (λ e. cc)))))
      (thread1_runs asleep refl (λ e. cc) (inr refl))

key-Reach-cells_example :
    (first_set.failed ≡ false)
    × All IsOwn first_set.lines
    × ((first_set.main_at ≢ returned) ⊎ (first_set.allocated ≡ first_set.freed + 1))
key-Reach-cells_example = key-Reach-cells reached
