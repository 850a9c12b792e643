-- ===== src/Complex1/Program/Tests.antt =====
-- Runs of led/complex1/test.cc on lines that are typed.
use rtems_examples.Common.{
  ℕ, ◌+◌, some, List, [], ◌∷◌, ◌≡◌, refl, arith, leb, ltb, ◌&&◌, if◌then◌else◌,
}
use mathlib.Core.List.{map}
use rtems_examples.Common.Int.{ℤ}
use rtems_examples.Complex1.Server.{start_led, set_rate, shutdown_led, set_period}
use rtems_examples.Complex1.Periodic.{Directives, stop, stop_leaves}
use rtems_examples.Complex1.Menu.{Line, returned, menu_run, bounded_entry}
use rtems_examples.Complex1.Menu.Choice.{IsCalm}
use rtems_examples.Complex1.Menu.Decimal.{decimal, digit_line}
use rtems_examples.Complex1.Program.{
  program, Tolower, Qsort, mystrcasecmp, set_period_of_led, do_test, led_menu_entries,
  start_led_server,
}
use rtems_examples.Complex1.Program.Names.{IsTolower, IsString, order, sign, mystrcasecmp-order}
use rtems_examples.Complex1.Program.Files.{Counted, IsReady, KeepsLength}
use rtems_examples.Complex1.Program.Safe.{do_test-IsCalm}

-- The small letters of ASCII.
small : ℕ → ℕ
small c = if leb b'A' c && leb c b'Z' then c + 32 else c

-- On a machine whose `char` has a sign, a byte from 128 on is a negative argument.
abbrev tolower : Tolower
tolower = record {
  of_char = λ c. if ltb c 128 then small c else c + 0xffffff00;
  of_unsigned_char = small;
}

tolower-IsTolower : IsTolower tolower
unfolding small
tolower-IsTolower = record {
  keeps_nul = λ c. (λ e. ground arith, λ e. ground arith);
  same_ascii = λ c h. ground arith;
}

-- A `qsort` that is good for names that are in order already.
in_order : Qsort
in_order compare_names names = names

in_order-KeepsLength : KeepsLength in_order
unfolding KeepsLength in_order
in_order-KeepsLength compare_names names = refl

directives : Directives
directives = record {
  task_create = λ i. 0;
  task_start = λ i. 0;
  rate_monotonic_delete = λ i. 0;
  task_delete = λ i. 0;
}

-- Into the menu of the LED, start it, set the periods 9 and 5, and leave both menus.
typed : List Line
typed =
    digit_line b'1'
    ∷ digit_line b'1'
    ∷ digit_line b'3'
    ∷ digit_line b'9'
    ∷ digit_line b'5'
    ∷ digit_line b'0'
    ∷ digit_line b'0'
    ∷ []

do_test_test :
    do_test decimal tolower in_order (some []) directives 8 program typed
    ≡ returned (record program { requests = start_led ∷ set_rate 9 5 ∷ shutdown_led ∷ [] }) []
unfolding do_test decimal typed bounded_entry menu_run led_menu_entries start_led_server
    set_period_of_led stop set_period directives in_order small stop_leaves
do_test_test = refl

mystrcasecmp-order_example :
    (v : ℤ) × (mystrcasecmp tolower (b'a' ∷ b'B' ∷ []) (b'A' ∷ b'c' ∷ []) ≡ some v)
    × (sign v ≡ order (map small (b'a' ∷ b'B' ∷ [])) (map small (b'A' ∷ b'c' ∷ [])))
unfolding IsString
mystrcasecmp-order_example =
    mystrcasecmp-order tolower tolower-IsTolower (b'a' ∷ b'B' ∷ []) (b'A' ∷ b'c' ∷ [])
      ((omega arith, omega arith), ((omega arith, omega arith), tt))
      ((omega arith, omega arith), ((omega arith, omega arith), tt))

do_test-IsCalm_example :
    IsCalm IsReady 8
      (do_test decimal tolower in_order (some ((b'a' ∷ []) ∷ [])) directives 8 program typed)
unfolding typed IsReady Counted
do_test-IsCalm_example =
    do_test-IsCalm decimal tolower in_order ((b'a' ∷ []) ∷ []) directives in_order-KeepsLength 8
      program typed (refl, omega arith) (omega arith)
