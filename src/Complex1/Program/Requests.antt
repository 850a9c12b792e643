-- ===== src/Complex1/Program/Requests.antt =====
-- led/complex1/test.cc: what the LED server is asked.
use rtems_examples.Common.{ℕ, ◌≤◌, Option, List, ◌≡◌, refl, arith}
use rtems_examples.Common.Lists.{length}
use rtems_examples.Common.Int.{ℤ, pos, negsuc}
use rtems_examples.Complex1.Server.{set_rate}
use rtems_examples.Complex1.Server.Period.{set_period-asked}
use rtems_examples.Complex1.Periodic.{Directives}
use rtems_examples.Complex1.Menu.{Line, Strtol, get_int_bounded}
use rtems_examples.Complex1.Menu.Entry.{InBounds}
use rtems_examples.Complex1.Menu.Choice.{IsCalm, IsCalm-and_then, get_int_bounded-IsCalm}
use rtems_examples.Complex1.Program.{
  Program, Tolower, Qsort, set_period_of_led, request, request_period, to_unsigned,
}

-- A pair of periods that was asked of the server, each within the bounds of its prompt.
pub Entered : Program → Program → Type 0
Entered p q =
    (on : ℕ) × (off : ℕ) × (1 ≤ on)
    × (on ≤ 10000)
    × (1 ≤ off)
    × (off ≤ 10000)
    × (q ≡ request (set_rate on off) p)

request_period-Entered :
    (on off : ℤ) (p : Program)
    → InBounds (pos 1) (pos 10000) on
    → InBounds (pos 1) (pos 10000) off
    → Entered p (request_period on off p)
unfolding request_period to_unsigned Entered
request_period-Entered (pos on) (pos off) p h k = (
  on,
  off,
  ground arith,
  ground arith,
  ground arith,
  ground arith,
  rw
      (
        request_period,
        set_period-asked on off (ground arith) (ground arith) (ground arith) (ground arith),
      )
      refl,
)
request_period-Entered (pos on) (negsuc off) p h k = absurd (ground arith)
request_period-Entered (negsuc on) off p h k = absurd (ground arith)

module _ (strtol : Strtol) (tolower : Tolower) (qsort : Qsort) (directory : Option (List Line))
    (d : Directives) where
  -- "Set Period of LED Server" waits for a line or asks the server once for the two periods entered,
  -- each of 1 to 10000 milliseconds.
  pub set_period_of_led-Entered :
      (p : Program) (lines : List Line)
      → IsCalm
          (Entered p)
          (length lines)
          (set_period_of_led strtol tolower qsort directory d p lines)
  unfolding set_period_of_led IsCalm
  set_period_of_led-Entered p lines =
      IsCalm-and_then (InBounds (pos 1) (pos 10000)) (Entered p) (length lines) (length lines)
        (get_int_bounded strtol (pos 1) (pos 10000) lines) _
        (get_int_bounded-IsCalm strtol (pos 1) (pos 10000) lines refl)
        (λ on rest within fewer.
          IsCalm-and_then (InBounds (pos 1) (pos 10000)) (Entered p) (length rest) (length lines)
            (get_int_bounded strtol (pos 1) (pos 10000) rest) _
            (get_int_bounded-IsCalm strtol (pos 1) (pos 10000) rest refl)
            (λ off later within' fewer'.
              (request_period-Entered on off p within within', omega arith)))
