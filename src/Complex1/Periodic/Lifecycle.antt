-- ===== src/Complex1/Periodic/Lifecycle.antt =====
-- Starting and stopping the threads of led/complex1/periodic.c, errors included.
use rtems_examples.Common.{
  ℕ, zero, suc, ◌+◌, ◌≤◌, ◌<◌, ◌≡◌, ◌≢◌, refl, ap, ◌∙◌, arith, Bool, true, false, List, [], ◌∷◌,
  ◌++◌,
}
use rtems_examples.Complex1.Periodic.{
  Directives, Effect, created, started, period_deleted, deleted, Threads,
  set_number_of_periodic_threads, log, initialize_loop, start, stop_loop, stop,
}
use mathlib.Core.List.{append_assoc, append-nil}

-- The effects of the first rounds of either loop, from thread `i` on.
pub starts : ℕ → ℕ → List Effect
starts zero i = []
starts (suc n) i = created i ∷ started i ∷ starts n (i + 1)

pub stops : ℕ → ℕ → List Effect
stops zero i = []
stops (suc n) i = period_deleted i ∷ deleted i ∷ stops n (i + 1)

snoc_two :
    {A : Type 0} (xs : List A) (a b : A) (ys : List A)
    → ((xs ++ a ∷ []) ++ b ∷ []) ++ ys ≡ xs ++ a ∷ b ∷ ys
snoc_two xs a b ys = simp append_assoc

-- The threads while they are not started.
abbrev pub down : Bool → ℕ → List Effect → Threads
down running count effects = record {
  initialized = false;
  running = running;
  count = count;
  effects = effects;
}

module _ (d : Directives) where
  -- The directives for the `n` threads from `i` on succeed.
  abbrev pub Starts : ℕ → ℕ → Type 0
  Starts n i = (j : ℕ) → i ≤ j → j < i + n → (d.task_create j ≡ 0) × (d.task_start j ≡ 0)

  abbrev pub Stops : ℕ → ℕ → Type 0
  Stops n i = (j : ℕ) → i ≤ j → j < i + n → (d.rate_monotonic_delete j ≡ 0) × (d.task_delete j ≡ 0)

  initialize_all :
      (n i : ℕ) (t : Threads)
      → Starts n i
      → initialize_loop d n i t
        ≡ record t { initialized = true; running = true; effects = t.effects ++ starts n i }
  unfolding initialize_loop starts
  initialize_all zero i t h = rw append-nil
  initialize_all (suc n) i t h = rw (h i (omega arith) (omega arith)).0 (
      rw (h i (omega arith) (omega arith)).1 (
        initialize_all n (i + 1) (log (log t (created i)) (started i))
          (λ j p q. h j (omega arith) (omega arith))
        ∙ ap (λ l. record t { initialized = true; running = true; effects = l })
            (snoc_two t.effects (created i) (started i) (starts n (i + 1)))))

  first_fails :
      (left i : ℕ) (t : Threads) → d.task_create i ≢ 0 → initialize_loop d (suc left) i t ≡ t
  unfolding initialize_loop
  first_fails left i t e = ground arith

  -- The loop stops at the first thread that cannot be created.
  initialize_some :
      (n left i : ℕ) (t : Threads)
      → Starts n i
      → d.task_create (i + n) ≢ 0
      → initialize_loop d (n + suc left) i t ≡ record t { effects = t.effects ++ starts n i }
  unfolding initialize_loop starts
  initialize_some zero left i t h e =
      let same : 0 + suc left ≡ suc left = omega arith in
      let here : i + 0 ≡ i = omega arith in
      rw (same, append-nil) (first_fails left i t (rw here at e))
  initialize_some (suc n) left i t h e =
      let same : suc n + suc left ≡ suc (n + suc left) = omega arith in
      let there : i + 1 + n ≡ i + suc n = omega arith in
      rw same (
        rw (h i (omega arith) (omega arith)).0 (
          rw (h i (omega arith) (omega arith)).1 (
            initialize_some n left (i + 1) (log (log t (created i)) (started i))
              (λ j p q. h j (omega arith) (omega arith)) (rw there e)
            ∙ ap (λ l. record t { effects = l })
                (snoc_two t.effects (created i) (started i) (starts n (i + 1))))))

  stop_all :
      (n i : ℕ) (t : Threads)
      → Stops n i
      → stop_loop d n i t
        ≡ record t { initialized = false; running = false; effects = t.effects ++ stops n i }
  unfolding stop_loop stops
  stop_all zero i t h = rw append-nil
  stop_all (suc n) i t h = rw (h i (omega arith) (omega arith)).0 (
      rw (h i (omega arith) (omega arith)).1 (
        stop_all n (i + 1) (log (log t (period_deleted i)) (deleted i))
          (λ j p q. h j (omega arith) (omega arith))
        ∙ ap (λ l. record t { initialized = false; running = false; effects = l })
            (snoc_two t.effects (period_deleted i) (deleted i) (stops n (i + 1)))))

  -- The threads started twice, all directives being successful, and then the number of threads set to
  -- m, at most the n that it was, and the threads stopped: each of the n threads is created and started
  -- once, in order, then the period and the task of each of the first m are deleted, and the flags are
  -- off. So with m equal to n no thread is left, and else the last n - m run on and cannot be stopped.
  pub stop-start :
      (running : Bool) (n m : ℕ) (effects : List Effect)
      → m ≤ n
      → Starts n 0
      → Stops n 0
      → stop d (set_number_of_periodic_threads m (start d (start d (down running n effects))))
        ≡ down false m ((effects ++ starts n 0) ++ stops m 0)
  unfolding set_number_of_periodic_threads
  stop-start running n m effects fewer good_start good_stop =
      ap (λ t. stop d (set_number_of_periodic_threads m (start d t))) once
      ∙ ap (λ t. stop d (set_number_of_periodic_threads m t)) again
      ∙ stopped
    where
      up : ℕ → Threads
      up count = record {
        initialized = true;
        running = true;
        count = count;
        effects = effects ++ starts n 0;
      }

      once : start d (down running n effects) ≡ up n
      once = unfold start in initialize_all n 0 (down false n effects) good_start

      again : start d (up n) ≡ up n
      again = unfold start in refl

      stopped : stop d (up m) ≡ down false m ((effects ++ starts n 0) ++ stops m 0)
      stopped = unfold stop in stop_all m 0 (up m) (λ j p q. good_stop j p (omega arith))

  -- If the task of thread `n` cannot be created, the `n` threads before it run on, and stopping does
  -- nothing about them, however the kernel would answer.
  pub stop-start_failed :
      (running : Bool) (effects : List Effect) (n left : ℕ) (later : Directives)
      → Starts n 0
      → d.task_create n ≢ 0
      → stop later (start d (down running (n + suc left) effects))
        ≡ down false (n + suc left) (effects ++ starts n 0)
  stop-start_failed running effects n left later good bad =
      ap (stop later) halted ∙ (unfold stop in refl)
    where
      here : 0 + n ≡ n
      here = omega arith

      halted :
          start d (down running (n + suc left) effects)
          ≡ down false (n + suc left) (effects ++ starts n 0)
      halted =
          unfold start in
          initialize_some n left 0 (down false (n + suc left) effects) good (rw here bad)
