-- ===== src/Complex1/Program/Safe.antt =====
-- led/complex1/test.cc: the menus never fault where the current directory can be opened, and what
-- happens where it cannot.
use rtems_examples.Common.{
  ℕ, suc, ◌<◌, ◌≤◌, some, List, refl, sym, subst, arith, Option-cases, inl, inr,
}
use rtems_examples.Common.Lists.{length, All}
use rtems_examples.Common.Int.{ℤ, pos, negsuc}
use rtems_examples.Complex1.Server.{set_period}
use rtems_examples.Complex1.Periodic.{Directives, max_periodic}
use rtems_examples.Complex1.Periodic.Arrays.{
  start-stays, stop-stays, start-count, stop-count, set_number-count,
}
use rtems_examples.Complex1.Menu.{Line, Strtol, get_int_bounded, menu_run}
use rtems_examples.Complex1.Menu.Entry.{InBounds}
use rtems_examples.Complex1.Menu.Choice.{
  IsCalm, IsCalmRoutine, IsCalm-and_then, IsCalm-le, get_int_bounded-IsCalm, menu_run-IsCalm,
}
use rtems_examples.Complex1.Program.{
  Program, Tolower, Qsort, start_led_server, stop_led_server, set_period_of_led,
  start_periodic_threads, stop_periodic_threads, enter_number_of_periodic_threads, report_usage,
  led_menu_entries, periodic_threads_menu_entries, main_menu_entries, do_test, Usage, stack_report,
  cpu_report, cpu_reset, period_report, period_reset, request, request_period, to_unsigned,
}
use rtems_examples.Complex1.Program.Files.{IsReady, KeepsLength, stat_file-IsCalm}

module _ (strtol : Strtol) (tolower : Tolower) (qsort : Qsort) (entries : List Line)
    (d : Directives) (bound : ℕ) (keeps : KeepsLength qsort) where
  request_period-IsReady :
      (on off : ℤ) (p : Program) → IsReady p → IsReady (request_period on off p)
  unfolding request_period IsReady request
  request_period-IsReady on off p ready =
      elim (Option-cases (set_period (to_unsigned on) (to_unsigned off))) [
        | inl none_sent ↦ rw (request_period, none_sent) ready
        | inr (m, sent) ↦ rw (request_period, sent) ready
      ]

  set_period_of_led-IsCalm :
      IsCalmRoutine IsReady bound (set_period_of_led strtol tolower qsort (some entries) d)
  unfolding IsCalmRoutine set_period_of_led IsCalm
  set_period_of_led-IsCalm p lines ready few =
      IsCalm-and_then (InBounds (pos 1) (pos 10000)) IsReady (length lines) (suc (length lines))
        (get_int_bounded strtol (pos 1) (pos 10000) lines) _
        (get_int_bounded-IsCalm strtol (pos 1) (pos 10000) lines refl)
        (λ on rest within fewer.
          IsCalm-and_then (InBounds (pos 1) (pos 10000)) IsReady (length rest) (suc (length lines))
            (get_int_bounded strtol (pos 1) (pos 10000) rest) _
            (get_int_bounded-IsCalm strtol (pos 1) (pos 10000) rest refl)
            (λ off later within' fewer'. (request_period-IsReady on off p ready, omega arith)))

  entered-le : (v : ℤ) → InBounds (pos 1) (pos 100) v → to_unsigned v ≤ max_periodic
  unfolding to_unsigned
  entered-le (pos n) within = ground arith
  entered-le (negsuc n) within = absurd (ground arith)

  enter_number-IsCalm :
      IsCalmRoutine IsReady bound
        (enter_number_of_periodic_threads strtol tolower qsort (some entries) d)
  unfolding IsCalmRoutine enter_number_of_periodic_threads IsCalm IsReady
  enter_number-IsCalm p lines ready few =
      IsCalm-and_then (InBounds (pos 1) (pos 100)) IsReady (length lines) (suc (length lines))
        (get_int_bounded strtol (pos 1) (pos 100) lines) _
        (get_int_bounded-IsCalm strtol (pos 1) (pos 100) lines refl)
        (λ threads rest within fewer. (
          (
            ready.0,
            subst (λ n. n ≤ max_periodic) (sym (set_number-count (to_unsigned threads) p.threads))
                (entered-le threads within),
          ),
          omega arith,
        ))

  start-IsCalm :
      IsCalmRoutine IsReady bound (start_periodic_threads strtol tolower qsort (some entries) d)
  unfolding IsCalmRoutine start_periodic_threads IsCalm IsReady
  start-IsCalm p lines ready few = rw (start-stays d p.threads ready.1) (
    (ready.0, subst (λ n. n ≤ max_periodic) (sym (start-count d p.threads)) ready.1),
    omega arith,
  )

  stop-IsCalm :
      IsCalmRoutine IsReady bound (stop_periodic_threads strtol tolower qsort (some entries) d)
  unfolding IsCalmRoutine stop_periodic_threads IsCalm IsReady
  stop-IsCalm p lines ready few =
      rw (stop-stays d p.threads ready.1) (
        (ready.0, subst (λ n. n ≤ max_periodic) (sym (stop-count d p.threads)) ready.1),
        omega arith,
      )

  led_menu-calm :
      All (IsCalmRoutine IsReady bound) (led_menu_entries strtol tolower qsort (some entries) d)
  unfolding led_menu_entries IsCalmRoutine start_led_server stop_led_server IsCalm IsReady request
  led_menu-calm = (
    (λ p lines ready few. (ready, omega arith)),
    ((λ p lines ready few. (ready, omega arith)), (set_period_of_led-IsCalm, tt)),
  )

  periodic_menu-calm :
      All
        (IsCalmRoutine IsReady bound)
        (periodic_threads_menu_entries strtol tolower qsort (some entries) d)
  unfolding periodic_threads_menu_entries
  periodic_menu-calm = (start-IsCalm, (stop-IsCalm, (enter_number-IsCalm, tt)))

  report_usage-IsCalm :
      (u : Usage)
      → IsCalmRoutine IsReady bound (report_usage strtol tolower qsort (some entries) d u)
  unfolding IsCalmRoutine report_usage IsCalm IsReady
  report_usage-IsCalm u p lines ready few = (ready, omega arith)

-- Where the current directory can be opened, `doTest` faults nowhere, whatever lines are typed.
module _ (strtol : Strtol) (tolower : Tolower) (qsort : Qsort) (entries : List Line)
    (d : Directives) (keeps : KeepsLength qsort) where
  main_menu-calm :
      (fuel : ℕ)
      → All
          (IsCalmRoutine IsReady fuel)
          (main_menu_entries strtol tolower qsort (some entries) d fuel)
  unfolding main_menu_entries IsCalmRoutine
  main_menu-calm fuel =
      let usage = report_usage-IsCalm strtol tolower qsort entries d fuel keeps in
      (
        (λ p lines ready few.
            menu_run-IsCalm IsReady strtol (led_menu_entries strtol tolower qsort (some entries) d)
              fuel (led_menu-calm strtol tolower qsort entries d fuel keeps) fuel p lines ready few
              few),
        (
          stat_file-IsCalm strtol tolower qsort entries d fuel keeps,
          (
            (λ p lines ready few.
                menu_run-IsCalm IsReady strtol
                  (periodic_threads_menu_entries strtol tolower qsort (some entries) d) fuel
                  (periodic_menu-calm strtol tolower qsort entries d fuel keeps) fuel p lines ready
                  few few),
            (
              usage stack_report,
              (
                usage cpu_report,
                (usage cpu_reset, (usage period_report, (usage period_reset, tt))),
              ),
            ),
          ),
        ),
      )

  -- Where the current directory can be opened, `doTest` comes to a line that it waits for or returns
  -- on whatever lines are typed, with fuel for each of them: no assertion fails, and neither the array
  -- of names nor those of periodic.c are left.
  pub do_test-IsCalm :
      (fuel : ℕ) (p : Program) (lines : List Line)
      → IsReady p
      → length lines < fuel
      → IsCalm IsReady
          (suc (length lines))
          (do_test strtol tolower qsort (some entries) d fuel p lines)
  unfolding do_test IsCalm IsReady request IsCalmRoutine
  do_test-IsCalm fuel p lines ready h =
      IsCalm-and_then IsReady IsReady (suc (length lines)) (suc (length lines))
        (menu_run strtol fuel (main_menu_entries strtol tolower qsort (some entries) d fuel) p
          lines)
        _
        (menu_run-IsCalm IsReady strtol
          (main_menu_entries strtol tolower qsort (some entries) d fuel) fuel (main_menu-calm fuel)
          fuel p lines ready h h)
        (λ q rest ready' fewer.
          IsCalm-and_then IsReady IsReady (suc (length lines)) (suc (length lines))
            (stop_periodic_threads strtol tolower qsort (some entries) d q rest) _
            (IsCalm-le IsReady (suc (length rest)) (suc (length lines))
              (stop_periodic_threads strtol tolower qsort (some entries) d q rest) (omega arith)
              (stop-IsCalm strtol tolower qsort entries d (suc (length rest)) keeps q rest ready'
                (omega arith)))
            (λ r later ready'' fewer'. (ready'', fewer')))
