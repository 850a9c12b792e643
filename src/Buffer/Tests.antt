-- ===== src/Buffer/Tests.antt =====
-- A run of c11/c11_cndvar01/test.c: `Thread1` waits, `main` puts 10, and `Thread1` takes it.
use rtems_examples.Common.{ℕ, ◌≡◌, refl, Option, none, some, List, [], ◌∷◌}
use rtems_examples.Buffer.{
  At, at_get, at_put, test_value, at_read, at_reset, wait_signal, relock, unlock_got, unlock_put,
  put_value, store_value, at_signal, done, State, get_locks, get_waits, wakes, relocks, finds,
  reads, resets, put_locks, reads_old, stores_first, signals, put_unlocks, Reach, here, next,
  buffer_init,
}
use rtems_examples.Buffer.Exclusion.{Reach-exclusive}
use rtems_examples.Buffer.Order.{IsDelivering, Reach-Delivers}

abbrev both : List At
both = at_get ∷ at_put 10 ∷ []

abbrev at_places : Option ℕ → Option ℕ → At → At → List ℕ → List (Option ℕ) → State
at_places v o a b ps gs = record {
  value = v;
  threads = a ∷ b ∷ [];
  owner = o;
  puts = ps;
  gets = gs;
}

abbrev taken : State
taken = at_places none (some 0) (unlock_got (some 10)) done (10 ∷ []) (some 10 ∷ [])

put-run : Reach (buffer_init both) (at_places (some 10) none wait_signal done (10 ∷ []) [])
unfolding buffer_init
put-run =
    let waits = get_waits (at_places none (some 0) test_value (at_put 10) [] []) 0 refl refl in
    let locks = put_locks (at_places none none wait_signal (at_put 10) [] []) 1 10 refl refl in
    let old = reads_old (at_places none (some 1) wait_signal (put_value 10) [] []) 1 10 refl in
    let stores =
      stores_first (at_places none (some 1) wait_signal (store_value 10 none) [] []) 1 10 refl in
    let sends = signals (at_places (some 10) (some 1) wait_signal at_signal (10 ∷ []) []) 1 refl in
    let frees =
      put_unlocks (at_places (some 10) (some 1) wait_signal unlock_put (10 ∷ []) []) 1 refl in
    let begun = next here (get_locks (buffer_init both) 0 refl refl) in
    next (next (next (next (next (next begun waits) locks) old) stores) sends) frees

taken-run : Reach (buffer_init both) taken
taken-run =
    let woken = wakes (at_places (some 10) none wait_signal done (10 ∷ []) []) 0 refl in
    let locks = relocks (at_places (some 10) none relock done (10 ∷ []) []) 0 refl refl in
    let found = finds (at_places (some 10) (some 0) test_value done (10 ∷ []) []) 0 10 refl refl in
    let got_it = reads (at_places (some 10) (some 0) at_read done (10 ∷ []) []) 0 refl in
    let cleared =
      resets (at_places (some 10) (some 0) (at_reset (some 10)) done (10 ∷ []) []) 0 (some 10)
        refl in
    next (next (next (next (next put-run woken) locks) found) got_it) cleared

Reach-Delivers_example : IsDelivering taken
Reach-Delivers_example = Reach-Delivers both ((λ h. h), ((λ h. h), tt)) taken-run

Reach-exclusive_example : ◌≡◌ {A = ℕ} 0 0
Reach-exclusive_example =
    Reach-exclusive both ((λ h. h), ((λ h. h), tt)) taken-run 0 0 (unlock_got (some 10))
      (unlock_got (some 10)) refl refl tt tt
