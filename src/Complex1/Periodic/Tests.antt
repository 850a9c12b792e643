-- ===== src/Complex1/Periodic/Tests.antt =====
-- Runs of led/complex1/periodic.c, and the theorems at a concrete kernel.
use rtems_examples.Common.{
  ◌+◌, suc, ◌≡◌, refl, arith, true, false, [], ◌∷◌, ◌++◌, if◌then◌else◌, ltb,
}
use rtems_examples.Complex1.Periodic.{
  Directives, created, started, periodic_threads_count, set_number_of_periodic_threads,
  initialize_loop, initialize, start, stop, task_name, period_name, hex_digit, build_name,
  body_period,
}
use rtems_examples.Complex1.Periodic.Lifecycle.{
  starts, stops, Starts, down, stop-start, stop-start_failed,
}

abbrev willing : Directives
willing = record {
  task_create = λ i. 0;
  task_start = λ i. 0;
  rate_monotonic_delete = λ i. 0;
  task_delete = λ i. 0;
}

-- A kernel with room for two tasks.
abbrev two_tasks : Directives
two_tasks = record willing { task_create = λ i. if ltb i 2 then 0 else 5 }

two_started :
    start two_tasks (down true 10 [])
    ≡ down false 10 (created 0 ∷ started 0 ∷ created 1 ∷ started 1 ∷ [])
unfolding start initialize initialize_loop
two_started = refl

-- "TA0a" and "PE01".
two_names : (task_name 10 ≡ 0x54413061) × (period_name 1 ≡ 0x50453031)
unfolding task_name period_name hex_digit build_name
two_names = (refl, refl)

fourth_body : body_period 3 ≡ (8, 4)
unfolding body_period
fourth_body = refl

-- Ten threads are started, the number is set to three, and the threads are stopped.
stop-start_example :
    stop willing (
      set_number_of_periodic_threads 3
        (start willing (start willing (down false periodic_threads_count []))))
    ≡ down false 3 (([] ++ starts 10 0) ++ stops 3 0)
stop-start_example =
    stop-start willing false 10 3 [] (omega arith) (λ j p q. (refl, refl)) (λ j p q. (refl, refl))

first_two : Starts two_tasks 2 0
first_two j p q = (ground arith, refl)

stop-start_failed_example :
    stop willing (start two_tasks (down true (2 + suc 7) []))
    ≡ down false (2 + suc 7) ([] ++ starts 2 0)
stop-start_failed_example = stop-start_failed two_tasks true [] 2 7 willing first_two (omega arith)
