-- ===== src/Complex1/Menu/Tests.antt =====
-- Runs of led/complex1/menu.cc on lines that are typed.
use rtems_examples.Common.{ℕ, suc, [], ◌∷◌, ◌≡◌, refl, arith}
use rtems_examples.Common.Lists.{All}
use rtems_examples.Common.Int.{pos}
use rtems_examples.Complex1.Menu.{
  returned, newline, bounded_entry, get_int_bounded, menu_run, Routine, get_string,
}
use rtems_examples.Complex1.Menu.Choice.{IsCalm, IsCalmRoutine, menu_run-IsCalm}
use rtems_examples.Complex1.Menu.Decimal.{decimal, digit_line}

get_int_bounded_test :
    get_int_bounded decimal
      (pos 1)
      (pos 5)
      (digit_line b'7' ∷ (newline ∷ []) ∷ digit_line b'x' ∷ digit_line b'3' ∷ digit_line b'4' ∷ [])
    ≡ returned (pos 3) (digit_line b'4' ∷ [])
unfolding get_int_bounded bounded_entry decimal
get_int_bounded_test = refl

get_string_test : get_string (digit_line b'a' ∷ []) ≡ returned (b'a' ∷ []) []
unfolding get_string
get_string_test = refl

-- A menu with one entry, which counts how often it is chosen.
count_choice : Routine ℕ
count_choice n lines = returned (suc n) lines

menu_run_test :
    menu_run decimal 4
      (count_choice ∷ [])
      0
      (digit_line b'1' ∷ digit_line b'2' ∷ digit_line b'1' ∷ digit_line b'0' ∷ digit_line b'1' ∷ [])
    ≡ returned 2 (digit_line b'1' ∷ [])
unfolding menu_run decimal count_choice bounded_entry
menu_run_test = refl

IsCalm-count : All (IsCalmRoutine (λ n. Unit {0}) 3) (count_choice ∷ [])
unfolding IsCalmRoutine IsCalm count_choice
IsCalm-count = ((λ n lines u few. (tt, omega arith)), tt)

menu_run-IsCalm_example :
    IsCalm
      (λ n. Unit {0})
      3
      (menu_run decimal 3 (count_choice ∷ []) 0 (digit_line b'1' ∷ digit_line b'0' ∷ []))
menu_run-IsCalm_example =
    menu_run-IsCalm (λ n. Unit {0}) decimal (count_choice ∷ []) 3 IsCalm-count 3 0
      (digit_line b'1' ∷ digit_line b'0' ∷ []) tt (omega arith) (omega arith)
