-- ===== src/Report/Scheduler.antt =====
-- posix_api/psx_sched_report/psx_sched_report.c: the priorities of a scheduling policy, which the
-- kernel gives as numbers that are not negative.
use rtems_examples.Common.{ℕ, ◌+◌, ◌-◌, ◌≡◌, arith, List, [], ◌∷◌, leb, ◌||◌, if◌then◌else◌}

pub data Line : Type 0 where
  information_on : ℕ → Line
  supports : (levels min max : ℕ) → Line
  is_compliant : Line
  is_not_compliant : Line
  quantum : (seconds nanoseconds : ℕ) → Line

-- `abs(max - min + 1)`
pub levels_of : ℕ → ℕ → ℕ
levels_of min max = if leb min (max + 1) then max + 1 - min else min - (max + 1)

pub verdict : ℕ → Line
verdict levels = if leb 32 levels then is_compliant else is_not_compliant

-- `print_sched_info` for a policy, with its priorities and its quantum.
pub print_policy : (policy min max sec nsec : ℕ) → List Line
unfolding levels_of verdict
print_policy policy min max sec nsec =
    let levels = levels_of min max in
    information_on policy ∷ supports levels min max ∷ verdict levels ∷ quantum sec nsec ∷ []

-- `main`, for the answers to each of the four policies.
pub sched_report : (other fifo rr sporadic : ℕ × ℕ) → (sec nsec : ℕ) → List (List Line)
unfolding print_policy
sched_report other fifo rr sporadic sec nsec =
    print_policy 0 (other.0) (other.1) sec nsec
    ∷ print_policy 1 (fifo.0) (fifo.1) sec nsec
    ∷ print_policy 2 (rr.0) (rr.1) sec nsec
    ∷ print_policy 3 (sporadic.0) (sporadic.1) sec nsec
    ∷ []

-- The verdict is that of POSIX, 32 priorities at least, where the bounds are in order; with the bounds
-- the other way round it is given as well where they are 33 apart or more.
pub verdict-levels_of :
    (min max : ℕ)
    → verdict (levels_of min max)
      ≡ (if leb (min + 31) max || leb (max + 33) min then is_compliant else is_not_compliant)
unfolding verdict levels_of
verdict-levels_of min max = ground arith
