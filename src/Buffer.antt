-- ===== src/Buffer.antt =====
-- c11/c11_cndvar01/test.c: a buffer for one value behind a mutex and a condition variable, which
-- `main` fills and `Thread1` empties.
-- Any number of threads may be in `buffer_get` and in `buffer_put`. A step is one call of the
-- threads library, or one access to `buffer_value`, which the mutex does not stop by itself; a wait
-- may also end with no signal. `none` is the value -1, which means that the buffer is empty: a value
-- put is not -1.
pub mod Exclusion
pub mod Held
pub mod Order
mod Tests
use rtems_examples.Common.{ℕ, ◌≡◌, Option, none, some, List, [], ◌∷◌}
use rtems_examples.Common.Lists.{get_elem?, set}

-- Where a thread is in `buffer_get` or `buffer_put`.
pub data At : Type 0 where
  -- Before `mtx_lock`.
  at_get : At
  at_put : ℕ → At
  -- Behind `mtx_lock`, at the test of the value.
  test_value : At
  -- Behind the loop: in front of the read of the value, and of its reset with the value read.
  at_read : At
  at_reset : Option ℕ → At
  -- In `cnd_wait`, and woken but without the mutex.
  wait_signal : At
  relock : At
  -- In front of `cnd_signal` and in front of `mtx_unlock`.
  at_signal : At
  unlock_got : Option ℕ → At
  unlock_put : At
  -- In front of the read of the old value, and of the store behind it.
  put_value : ℕ → At
  store_value : ℕ → Option ℕ → At
  -- Returned, with the value of `buffer_get`.
  got : Option ℕ → At
  done : At

pub record State : Type 0 where
  -- `buffer_value`.
  pub value : Option ℕ
  pub threads : List At
  -- The thread that has locked `buffer_mutex`.
  pub owner : Option ℕ
  -- The values put and the values taken, the last one in front.
  pub puts : List ℕ
  pub gets : List (Option ℕ)

abbrev pub move : ℕ → At → State → State
move i a s = record s { threads = set s.threads i a }

abbrev pub IsAt : ℕ → At → State → Type 0
IsAt i a s = get_elem? s.threads i ≡ some a

pub data Step : State → State → Type 0 where
  -- buffer_get
  get_locks :
      (s : State) (i : ℕ)
      → IsAt i at_get s
      → s.owner ≡ none
      → Step s (move i test_value (record s { owner = some i }))
  get_waits :
      (s : State) (i : ℕ)
      → IsAt i test_value s
      → s.value ≡ none
      → Step s (move i wait_signal (record s { owner = none }))
  wakes : (s : State) (i : ℕ) → IsAt i wait_signal s → Step s (move i relock s)
  relocks :
      (s : State) (i : ℕ)
      → IsAt i relock s
      → s.owner ≡ none
      → Step s (move i test_value (record s { owner = some i }))
  finds : (s : State) (i v : ℕ) → IsAt i test_value s → s.value ≡ some v → Step s (move i at_read s)
  reads : (s : State) (i : ℕ) → IsAt i at_read s → Step s (move i (at_reset s.value) s)
  resets :
      (s : State) (i : ℕ) (r : Option ℕ)
      → IsAt i (at_reset r) s
      → Step s (move i (unlock_got r) (record s { value = none; gets = r ∷ s.gets }))
  get_unlocks :
      (s : State) (i : ℕ) (r : Option ℕ)
      → IsAt i (unlock_got r) s
      → Step s (move i (got r) (record s { owner = none }))
  -- buffer_put
  put_locks :
      (s : State) (i v : ℕ)
      → IsAt i (at_put v) s
      → s.owner ≡ none
      → Step s (move i (put_value v) (record s { owner = some i }))
  reads_old :
      (s : State) (i v : ℕ) → IsAt i (put_value v) s → Step s (move i (store_value v s.value) s)
  stores_first :
      (s : State) (i v : ℕ)
      → IsAt i (store_value v none) s
      → Step s (move i at_signal (record s { value = some v; puts = v ∷ s.puts }))
  stores_over :
      (s : State) (i v old : ℕ)
      → IsAt i (store_value v (some old)) s
      → Step s (move i unlock_put (record s { value = some v; puts = v ∷ s.puts }))
  signals : (s : State) (i : ℕ) → IsAt i at_signal s → Step s (move i unlock_put s)
  put_unlocks :
      (s : State) (i : ℕ) → IsAt i unlock_put s → Step s (move i done (record s { owner = none }))

pub data Reach (s : State) : State → Type 0 where
  here : Reach s s
  next : {t u : State} → Reach s t → Step t u → Reach s u

-- `buffer_init`, with the threads that are going to call `buffer_get` and `buffer_put`.
unfoldable pub buffer_init : List At → State
buffer_init threads = record { value = none; threads = threads; owner = none; puts = []; gets = [] }
