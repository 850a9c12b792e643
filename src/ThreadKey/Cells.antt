-- ===== src/ThreadKey/Cells.antt =====
-- c11/c11_key01/test.c where the threads run in turn: what each of them finds under the key, and
-- what becomes of the cells.
use rtems_examples.Common.{
  ℕ, ◌+◌, ◌≡◌, ◌≢◌, ◌⊎◌, inl, inr, refl, ap, arith, Bool, false, Option, none, some, List, [], ◌∷◌,
}
use rtems_examples.Common.Lists.{All, All-append}
use rtems_examples.ThreadKey.{
  At, gone, MainAt, creates_one, creates_two, creates_key, assigns, sleeps, reports, deletes,
  returned, State, run_main, in_turn, any, Step, main_runs, thread1_runs, thread2_runs, Reach, here,
  next, start,
}
use rtems_examples.ThreadKey.Turns.{
  IsOwn, held, IsOrderly, some_injective, thread1-IsOrderly, thread2-IsOrderly,
}

module _ (a b : At) (av bv : Option ℕ) (key : Bool) (lines : List (ℕ × ℕ)) (allocated freed : ℕ)
    (failed : Bool) where
  abbrev state : MainAt → Option ℕ → State
  state m v = record {
    main_at = m;
    main_value = v;
    thread1 = record { at = a; value = av };
    thread2 = record { at = b; value = bv };
    key = key;
    lines = lines;
    allocated = allocated;
    freed = freed;
    failed = failed;
  }

  main_from :
      (m : MainAt) (v : Option ℕ)
      → (m ≢ sleeps) ⊎ ((a ≡ gone) × (b ≡ gone))
      → m ≢ returned
      → IsOrderly (state m v)
      → IsOrderly (run_main (state m v))
  unfolding run_main
  main_from creates_one v may on o =
      let (ea, eb, ek, ev) = o.turn in
      record {
        turn = (refl, eb, ek, ev);
        holds1 = refl;
        holds2 = o.holds2;
        own = o.own;
        cells = omega (arith, o.cells, ap held (rw ea at o.holds1));
        well = o.well;
      }
  main_from creates_two v may on o =
      let (ea, eb, ek, ev) = o.turn in
      record {
        turn = (ea, refl, ek, ev);
        holds1 = o.holds1;
        holds2 = refl;
        own = o.own;
        cells = omega (arith, o.cells, ap held (rw eb at o.holds2));
        well = o.well;
      }
  main_from creates_key v may on o =
      let (ea, eb, ek, ev) = o.turn in
      record {
        turn = (ea, eb, refl, ev);
        holds1 = o.holds1;
        holds2 = o.holds2;
        own = o.own;
        cells = o.cells;
        well = o.well;
      }
  main_from assigns v may on o =
      let (ea, eb, ek, ev) = o.turn in
      record {
        turn = (ek, refl);
        holds1 = o.holds1;
        holds2 = o.holds2;
        own = o.own;
        cells = omega (arith, o.cells, ap held ev);
        well = o.well;
      }
  main_from sleeps v (inl awake) on o = absurd (awake refl)
  main_from sleeps v (inr (ea, eb)) on o = record {
    turn = (ea, eb, o.turn.0, o.turn.1);
    holds1 = o.holds1;
    holds2 = o.holds2;
    own = o.own;
    cells = o.cells;
    well = o.well;
  }
  main_from reports none may on o = let (ea, eb, ek, ev) = o.turn in absurd (cc)
  main_from reports (some n) may on o =
      let (ea, eb, ek, ev) = o.turn in
      record {
        turn = o.turn;
        holds1 = o.holds1;
        holds2 = o.holds2;
        own = All-append IsOwn lines ((128, n) ∷ []) o.own (some_injective ev, tt);
        cells = o.cells;
        well = o.well;
      }
  main_from deletes v may on o =
      let (ea, eb, ek, ev) = o.turn in
      record {
        turn = (ea, eb, refl, ev);
        holds1 = o.holds1;
        holds2 = o.holds2;
        own = o.own;
        cells = o.cells;
        well = o.well;
      }
  main_from returned v may on o = absurd (on refl)

not_any : {P : Type 0} → (in_turn ≡ any) ⊎ P → P
not_any (inl e) = cc
not_any (inr p) = p

Step-IsOrderly : {s t : State} → Step in_turn s t → IsOrderly s → IsOrderly t
Step-IsOrderly (main_runs s w on may) o =
    main_from s.thread1.at s.thread2.at s.thread1.value s.thread2.value s.key s.lines s.allocated
      s.freed s.failed s.main_at s.main_value (not_any may) on o
Step-IsOrderly (thread1_runs s w on may) o = thread1-IsOrderly s (not_any may) o
Step-IsOrderly (thread2_runs s w on may) o = thread2-IsOrderly s (not_any may) o

Reach-IsOrderly : {s : State} → Reach in_turn start s → IsOrderly s
unfolding start
Reach-IsOrderly here = record {
  turn = (refl, refl, refl, refl);
  holds1 = refl;
  holds2 = refl;
  own = tt;
  cells = omega arith;
  well = refl;
}
Reach-IsOrderly (next r st) = Step-IsOrderly st (Reach-IsOrderly r)

at_return :
    (m : MainAt) (s : State)
    → s.main_at ≡ m
    → IsOrderly s
    → (s.main_at ≢ returned) ⊎ (s.allocated ≡ s.freed + 1)
at_return returned s e o =
    let (ea, eb, ek, ev) = rw e at o.turn in
    inr
      (omega (arith, o.cells, ap held ev, ap held (rw ea at o.holds1), ap held (rw eb at o.holds2)))
at_return creates_one s e o = inl (λ x. cc)
at_return creates_two s e o = inl (λ x. cc)
at_return creates_key s e o = inl (λ x. cc)
at_return assigns s e o = inl (λ x. cc)
at_return sleeps s e o = inl (λ x. cc)
at_return reports s e o = inl (λ x. cc)
at_return deletes s e o = inl (λ x. cc)

-- Where the created threads run only while `main` sleeps, and `main` sleeps until both are gone, no
-- assertion fails and NULL is not used, each thread prints its own number, and when `main` returns
-- all cells but one are freed.
pub key-Reach-cells :
    {s : State}
    → Reach in_turn start s
    → (s.failed ≡ false)
      × All IsOwn s.lines
      × ((s.main_at ≢ returned) ⊎ (s.allocated ≡ s.freed + 1))
key-Reach-cells {s} r = let o = Reach-IsOrderly r in (o.well, o.own, at_return s.main_at s refl o)
