-- ===== src/ClassicSignal/Tests.antt =====
-- Runs of classic_api/classic_signal/test.c whose count of ticks wraps round.
use rtems_examples.Common.{ℕ, ◌%◌, ◌^◌, Bool, true, false, List, [], ◌∷◌, ◌≡◌, ◌≢◌, refl, arith}
use mathlib.Core.List.{map}
use rtems_examples.ClassicSignal.{in_loop, signal_done, wait_loop}
use rtems_examples.ClassicSignal.Deadline.{as_read, IsSoon, verdict, IsOver, wait_loop-ends}

abbrev wrapping : List (ℕ × Bool)
wrapping = (4294967295, false) ∷ (4294967340, true) ∷ (4294967400, true) ∷ []

wait_loop_test : wait_loop 4294967290 ((4294967295, false) ∷ (44, true) ∷ []) ≡ signal_done
unfolding wait_loop
wait_loop_test = refl

wait_loop-ends_example :
    (wait_loop (4294967290 % 2 ^ 32) (map as_read wrapping) ≢ in_loop)
    × (wait_loop (4294967290 % 2 ^ 32) (map as_read wrapping) ≡ verdict 4294967290 wrapping)
unfolding IsSoon IsOver
wait_loop-ends_example =
    wait_loop-ends 4294967290 wrapping
      ((omega arith, omega arith), ((omega arith, omega arith), ((omega arith, omega arith), tt)))
      (omega arith)
