-- ===== src/TickWrap.antt =====
-- misc/nanosecond_tick_wrap/init.c: readings of the uptime in microseconds of 32 bits, and the time
-- between two of them.
pub mod Gaps
mod Tests
use rtems_examples.Common.{ℕ, ◌+◌, ◌-◌, ◌*◌, ◌/◌, ◌%◌, ◌^◌, List, [], ◌∷◌}

-- `struct timespec`
pub record Timespec : Type 0 where
  pub tv_sec : ℕ
  pub tv_nsec : ℕ

-- A line of the test: `sec`, `msec`, `usec` and `dt`.
pub record Line : Type 0 where
  pub sec : ℕ
  pub msec : ℕ
  pub usec : ℕ
  pub dt : ℕ

-- The element of `uptime_usec` for a reading.
pub uptime_usec : Timespec → ℕ
uptime_usec uptime =
    ((uptime.tv_sec % 2 ^ 32) * 1000000 % 2 ^ 32 + (uptime.tv_nsec % 2 ^ 32) / 1000) % 2 ^ 32

pub line : ℕ → ℕ → Line
line t0 t1 = record {
  sec = t1 / 1000000;
  msec = (t1 / 1000) % 1000;
  usec = t1 % 1000;
  dt = (t1 + 2 ^ 32 - t0) % 2 ^ 32;
}

-- The second loop of `Init`.
pub print_loop : ℕ → List Timespec → List Line
unfolding line uptime_usec
print_loop t0 [] = []
print_loop t0 (uptime ∷ rest) = let t1 = uptime_usec uptime in line t0 t1 ∷ print_loop t1 rest
