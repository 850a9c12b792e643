-- ===== src/Complex1/Periodic/Arrays.antt =====
-- The two arrays of led/complex1/periodic.c and the number of threads.
use rtems_examples.Common.{
  ℕ, zero, suc, ◌+◌, ◌≤◌, ◌≡◌, ◌==◌, refl, arith, Bool, if◌then◌else◌, true, false, Bool-cases, inl,
  inr,
}
use rtems_examples.Complex1.Periodic.{
  Directives, Threads, created, started, period_deleted, deleted, log, initialize_loop, initialize,
  start, stop_loop, stop, set_number_of_periodic_threads, max_periodic, initialize_leaves,
  start_leaves, stop_loop_leaves, stop_leaves,
}

either-count :
    (b : Bool) (t u : Threads) (n : ℕ) → t.count ≡ n → u.count ≡ n → (if b then t else u).count ≡ n
either-count true t u n h k = h
either-count false t u n h k = k

module _ (d : Directives) where
  initialize_stays :
      (rounds i : ℕ) → i + rounds ≤ max_periodic → initialize_leaves d rounds i ≡ false
  unfolding initialize_leaves
  initialize_stays zero i h = refl
  initialize_stays (suc rounds) i h =
      let rest = initialize_stays rounds (i + 1) (omega (arith, h)) in ground (arith, h, rest)

  stop_stays : (rounds i : ℕ) → i + rounds ≤ max_periodic → stop_loop_leaves d rounds i ≡ false
  unfolding stop_loop_leaves
  stop_stays zero i h = refl
  stop_stays (suc rounds) i h =
      let rest = stop_stays rounds (i + 1) (omega (arith, h)) in ground (arith, h, rest)

  -- With as many threads as the arrays have elements, or fewer, neither loop leaves them.
  pub start-stays : (t : Threads) → t.count ≤ max_periodic → start_leaves d t ≡ false
  unfolding start_leaves
  start-stays t h =
      let within = initialize_stays t.count 0 (omega (arith, h)) in
      elim (Bool-cases t.initialized) [ inl e ↦ rw e refl | inr e ↦ rw e within ]

  pub stop-stays : (t : Threads) → t.count ≤ max_periodic → stop_leaves d t ≡ false
  unfolding stop_leaves
  stop-stays t h =
      let within = stop_stays t.count 0 (omega (arith, h)) in
      elim (Bool-cases t.initialized) [ inl e ↦ rw e within | inr e ↦ rw e refl ]

  -- Neither of them changes the number of threads.
  initialize_loop-count :
      (rounds i : ℕ) (t : Threads) → (initialize_loop d rounds i t).count ≡ t.count
  unfolding initialize_loop
  initialize_loop-count zero i t = refl
  initialize_loop-count (suc rounds) i t =
      let rest = initialize_loop-count rounds (i + 1) (log (log t (created i)) (started i)) in
      elim (Bool-cases (d.task_create i == 0)) [
        | inl e ↦ elim (Bool-cases (d.task_start i == 0)) [
          | inl f ↦ rw (e, f) rest
          | inr f ↦ rw (e, f) refl
        ]
        | inr e ↦ rw e refl
      ]

  stop_loop-count : (rounds i : ℕ) (t : Threads) → (stop_loop d rounds i t).count ≡ t.count
  unfolding stop_loop
  stop_loop-count zero i t = refl
  stop_loop-count (suc rounds) i t =
      let rest = stop_loop-count rounds (i + 1) (log (log t (period_deleted i)) (deleted i)) in
      elim (Bool-cases (d.rate_monotonic_delete i == 0)) [
        | inl e ↦ elim (Bool-cases (d.task_delete i == 0)) [
          | inl f ↦ rw (e, f) rest
          | inr f ↦ rw (e, f) refl
        ]
        | inr e ↦ rw e refl
      ]

  pub start-count : (t : Threads) → (start d t).count ≡ t.count
  unfolding start initialize
  start-count t =
      let loop = initialize_loop d t.count 0 (record t { running = false }) in
      either-count t.initialized t loop t.count refl
        (initialize_loop-count t.count 0 (record t { running = false }))

  pub stop-count : (t : Threads) → (stop d t).count ≡ t.count
  unfolding stop
  stop-count t =
      either-count t.initialized (stop_loop d t.count 0 t) t t.count (stop_loop-count t.count 0 t)
        refl

pub set_number-count : (n : ℕ) (t : Threads) → (set_number_of_periodic_threads n t).count ≡ n
unfolding set_number_of_periodic_threads
set_number-count n t = refl
