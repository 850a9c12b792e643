-- ===== src/Buffer/Order.antt =====
-- c11/c11_cndvar01/test.c: which values `buffer_get` returns.
use rtems_examples.Common.{ℕ, ◌≡◌, refl, Option, none, some, List, [], ◌∷◌}
use rtems_examples.Common.Lists.{All}
use rtems_examples.Buffer.{
  At, at_reset, State, Step, get_locks, get_waits, wakes, relocks, finds, reads, resets,
  get_unlocks, put_locks, reads_old, stores_first, stores_over, signals, put_unlocks, Reach, here,
  next, buffer_init,
}
use rtems_examples.Buffer.Exclusion.{IsInside, IsOwned, Step-Owned, none_inside}
use rtems_examples.Buffer.Held.{IsHeld, Step-Held, none_inside-Held}

-- The first list is the second one with some entries left out; it has no -1.
pub data Selects : List (Option ℕ) → List ℕ → Type 0 where
  nothing : Selects [] []
  keep :
      {xs : List (Option ℕ)} {ys : List ℕ} (x : ℕ) → Selects xs ys → Selects (some x ∷ xs) (x ∷ ys)
  drop : {xs : List (Option ℕ)} {ys : List ℕ} (y : ℕ) → Selects xs ys → Selects xs (y ∷ ys)

-- What is taken was put, in the same order and each put at most once; and what the buffer holds is
-- the value put last, which is not taken yet.
abbrev pub Delivers : Option ℕ → List ℕ → List (Option ℕ) → Type 0
Delivers none puts gets = Selects gets puts
Delivers (some v) puts gets = (older : List ℕ) × (puts ≡ v ∷ older) × Selects gets older

abbrev pub IsDelivering : State → Type 0
IsDelivering s = Delivers s.value s.puts s.gets

-- Whatever the buffer held, the gets are among the puts.
among :
    (value : Option ℕ) (puts : List ℕ) (gets : List (Option ℕ))
    → Delivers value puts gets
    → Selects gets puts
among none puts gets k = k
among (some v) puts gets (older, e, k) = rw e (drop v k)

reset-Delivers :
    (s : State) (i : ℕ) (r : Option ℕ)
    → (v : ℕ) × (r ≡ some v) × (s.value ≡ some v)
    → IsDelivering s
    → Selects (r ∷ s.gets) s.puts
reset-Delivers s i r (v, e, f) k = let l = rw f at k in rw (e, l.1) (keep v l.2)

Step-Delivers : {s t : State} → Step s t → IsHeld s → IsDelivering s → IsDelivering t
Step-Delivers (get_locks s i p free) h k = k
Step-Delivers (get_waits s i p e) h k = k
Step-Delivers (wakes s i p) h k = k
Step-Delivers (relocks s i p free) h k = k
Step-Delivers (finds s i v p e) h k = k
Step-Delivers (reads s i p) h k = k
Step-Delivers (resets s i r p) h k = reset-Delivers s i r (h i (at_reset r) p) k
Step-Delivers (get_unlocks s i r p) h k = k
Step-Delivers (put_locks s i v p free) h k = k
Step-Delivers (reads_old s i v p) h k = k
Step-Delivers (stores_first s i v p) h k = (s.puts, refl, among s.value s.puts s.gets k)
Step-Delivers (stores_over s i v old p) h k = (s.puts, refl, among s.value s.puts s.gets k)
Step-Delivers (signals s i p) h k = k
Step-Delivers (put_unlocks s i p) h k = k

record IsInOrder (s : State) : Type 0 where
  owned : IsOwned s
  held : IsHeld s
  delivering : IsDelivering s

Reach-IsInOrder : {s t : State} → IsInOrder s → Reach s t → IsInOrder t
Reach-IsInOrder k here = k
Reach-IsInOrder k (next r st) =
    let l = Reach-IsInOrder k r in
    record {
      owned = Step-Owned st l.owned;
      held = Step-Held st l.owned l.held;
      delivering = Step-Delivers st l.held l.delivering;
    }

-- When no thread is inside the calls at the start, then whatever the threads do, the values that
-- `buffer_get` takes are some of the values put, in the order in which they were put and each put at
-- most once, and never -1; what the buffer holds is the value put last, and it is not among them yet.
pub Reach-Delivers :
    (threads : List At) {s : State}
    → All (λ a. ¬ IsInside a) threads
    → Reach (buffer_init threads) s
    → IsDelivering s
unfolding buffer_init
Reach-Delivers threads out r =
    let owned = none_inside threads out in
    let start : IsInOrder (buffer_init threads) = record {
      owned = owned;
      held = none_inside-Held threads none owned;
      delivering = nothing;
    } in
    (Reach-IsInOrder start r).delivering
