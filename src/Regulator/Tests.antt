-- ===== src/Regulator/Tests.antt =====
-- A library that hands everything over while the program sleeps, and a run of
-- misc/regulator/regulator_example.c with it.
use rtems_examples.Common.{
  ℕ, ◌+◌, ◌-◌, ◌≡◌, refl, arith, some, List, [], ◌∷◌, ◌++◌, ◌==◌, if◌then◌else◌,
}
use rtems_examples.Common.Lists.{length, length-append}
use mathlib.Core.List.{append-nil}
use rtems_examples.Regulator.Library.{Text, Attributes, Operations, IsRegulator}
use rtems_examples.Regulator.{text, State, test_regulator, start_state}
use rtems_examples.Regulator.Delivery.{Complete, test_regulator-Complete}

record Pool : Type 0 where
  given : Attributes
  waiting : List Text
  held : ℕ
  cell : ℕ → Text

abbrev pool : Operations Pool
pool = record {
  ticks_per_second = 100;
  create = λ a s. record {
    handed = [];
    result = (0, 1);
    after = record { given = a; waiting = []; held = 0; cell = λ b. [] };
  };
  obtain_buffer = λ s. record {
    handed = [];
    result = (0, length s.waiting + s.held + 1);
    after = record s { held = s.held + 1 };
  };
  strcpy = λ b t s. record s { cell = λ i. if i == b then t else s.cell i };
  send = λ b n s. record {
    handed = [];
    result = 0;
    after = record s { waiting = s.waiting ++ s.cell b ∷ []; held = s.held - 1 };
  };
  sleep =
      λ seconds s. record { handed = s.waiting; result = tt; after = record s { waiting = [] } };
  get_statistics = λ s. record {
    handed = [];
    result =
        (0, record { obtained = 14; released = 14; delivered = 14; count = 10; missed_count = 0 });
    after = s;
  };
}

pool-IsRegulator : IsRegulator pool
pool-IsRegulator = record {
  attributes = λ s. s.given;
  outstanding = λ s. length s.waiting + s.held;
  waiting = λ s. s.waiting;
  content = λ s b. s.cell b;
  create_lem = λ a s h. (refl, omega arith, refl, refl, refl, refl);
  obtain_buffer_lem = λ s h. (refl, omega arith, refl, omega arith, refl);
  strcpy_lem = λ b t s. (refl, refl, refl, ground arith);
  send_lem = λ b n s h k has.
      (refl, refl, omega (arith, has, length-append {0} s.waiting (s.cell b ∷ [])), refl);
  sleep_lem = λ seconds periods s h. (refl, omega arith, append-nil s.waiting, omega arith);
  get_statistics_lem = λ s. (refl, refl);
}

abbrev no_messages : Pool
no_messages = record {
  given = record {
    maximum_message_size = 0;
    maximum_messages = 0;
    delivery_thread_priority = 0;
    delivery_thread_stack_size = 0;
    delivery_thread_period = 0;
    maximum_to_dequeue_per_period = 0;
  };
  waiting = [];
  held = 0;
  cell = λ b. [];
}

thirteen : text 13 ≡ b'm' ∷ b'e' ∷ b's' ∷ b's' ∷ b'a' ∷ b'g' ∷ b'e' ∷ b' ' ∷ b'1' ∷ b'3' ∷ []
unfolding text
thirteen = refl

test_regulator-Complete_example :
    (after : State Pool) × (test_regulator pool (λ n. (0, n, 0)) (start_state no_messages)
      ≡ some (tt, after))
    × Complete pool pool-IsRegulator (λ n. (0, n, 0)) (λ n. refl) after
test_regulator-Complete_example =
    test_regulator-Complete pool pool-IsRegulator (λ n. (0, n, 0)) (λ n. refl) no_messages
