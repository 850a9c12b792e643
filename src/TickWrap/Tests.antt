-- ===== src/TickWrap/Tests.antt =====
-- A reading 1 microsecond before the count wraps round, and one 2 microseconds later.
use rtems_examples.Common.{◌≡◌, refl, arith, List, [], ◌∷◌}
use rtems_examples.TickWrap.{Timespec, print_loop}
use rtems_examples.TickWrap.Gaps.{says, print_loop-gaps}
use mathlib.Core.List.{map}

abbrev boot : Timespec
boot = record { tv_sec = 0; tv_nsec = 0 }

abbrev readings : List Timespec
readings =
    record { tv_sec = 4294; tv_nsec = 967295000 }
    ∷ record { tv_sec = 4294; tv_nsec = 967297000 }
    ∷ []

print_loop-gaps_example : map says (print_loop 0 readings) ≡ (4294967295, 4294967295) ∷ (1, 2) ∷ []
print_loop-gaps_example = print_loop-gaps boot readings 0 refl (omega arith)
