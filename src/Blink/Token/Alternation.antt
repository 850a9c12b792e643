-- ===== src/Blink/Token/Alternation.antt =====
-- The switches of sem_server and posix_mutex_server, in every reachable state.
use rtems_examples.Common.{ℕ, ◌≡◌, refl, false, List, ◌⊎◌, inl, inr, Bool-cases}
use rtems_examples.Blink.{Led, off, on, Alternates}
use rtems_examples.Blink.Token.{
  At, at_switch, asleep, at_release, at_obtain, waiting, State, init_step, test_step, is_ready,
  Step, init_runs, test_runs, init_wakes, test_wakes, Reach, here, next, sem_start, mutex_start,
}
use rtems_examples.Blink.Token.Holding.{Kept, any-Kept, symm_Kept, symm_Kept', wakes-Kept}

abbrev IsOrderly : State → Type 0
IsOrderly s = Kept off s.main s.server s.free s.leds

Step-IsOrderly : {s t : State} → Step s t → IsOrderly s → IsOrderly t
unfolding init_step test_step
Step-IsOrderly (init_runs s r) k = any-Kept off s.main s.server s.free s.leds k r
Step-IsOrderly (test_runs s r) k =
    symm_Kept _ _ _ _ (any-Kept on s.server s.main s.free s.leds (symm_Kept' _ _ _ _ k) r)
Step-IsOrderly (init_wakes s i e) k = wakes-Kept off s.server s.free s.leds (rw e at k) i.1
Step-IsOrderly (test_wakes s i e) k =
    symm_Kept _ _ _ _ (wakes-Kept on s.main s.free s.leds (rw e at (symm_Kept' _ _ _ _ k)) i.0)

Reach-IsOrderly : {s t : State} → IsOrderly s → Reach s t → IsOrderly t
Reach-IsOrderly k here = k
Reach-IsOrderly k (next r st) = Step-IsOrderly st (Reach-IsOrderly k r)

sem_start-IsOrderly : IsOrderly sem_start
unfolding sem_start
sem_start-IsOrderly = record { still = tt; held = inl (tt, refl, tt) }

mutex_start-IsOrderly : IsOrderly mutex_start
unfolding mutex_start
mutex_start-IsOrderly = record { still = tt; held = inr (inr (refl, refl)) }

idle_cases :
    (m s : At) (n : ℕ) (ls : List Led)
    → Kept off m s n ls
    → is_ready m ≡ false
    → is_ready s ≡ false
    → (m ≡ asleep) ⊎ (s ≡ asleep)
unfolding is_ready
idle_cases asleep s n ls k p q = inl refl
idle_cases waiting asleep n ls k p q = inr refl
idle_cases waiting waiting n ls k p q = elim k.held [
  | inl h ↦ elim h [ ]
  | inr (inl h) ↦ elim h [ ]
  | inr (inr h) ↦ elim h [ ]
]
idle_cases waiting at_switch n ls k p q = cc
idle_cases waiting at_release n ls k p q = cc
idle_cases waiting at_obtain n ls k p q = cc
idle_cases at_switch s n ls k p q = cc
idle_cases at_release s n ls k p q = cc
idle_cases at_obtain s n ls k p q = cc

-- One of the tasks can run, or one that sleeps can wake.
enabled : (s : State) → IsOrderly s → (t : State) × Step s t
enabled s k = elim (Bool-cases (is_ready s.main)) [
  | inl r ↦ (_, init_runs s r)
  | inr p ↦ elim (Bool-cases (is_ready s.server)) [
    | inl r ↦ (_, test_runs s r)
    | inr q ↦ elim (idle_cases s.main s.server s.free s.leds k p q) [
      | inl e ↦ (_, init_wakes s (p, q) e)
      | inr e ↦ (_, test_wakes s (p, q) e)
    ]
  ]
]

-- Provided that a sleeping task wakes only when no other task can run, which is built into the steps:
-- in every state that sem_server reaches, whichever ready task runs first, the switches alternate,
-- and a further step is possible.
pub sem-Reach-Alternates :
    {s : State} → Reach sem_start s → Alternates s.leds × ((t : State) × Step s t)
sem-Reach-Alternates {s} r = let k = Reach-IsOrderly sem_start-IsOrderly r in (k.still, enabled s k)

-- Provided that a sleeping thread wakes only when no other thread can run: in every state that
-- posix_mutex_server reaches, whichever thread locks the mutex first, the
-- switches alternate, and a further step is possible.
pub mutex-Reach-Alternates :
    {s : State} → Reach mutex_start s → Alternates s.leds × ((t : State) × Step s t)
mutex-Reach-Alternates {s} r =
    let k = Reach-IsOrderly mutex_start-IsOrderly r in (k.still, enabled s k)
