-- ===== src/TickWrap/Gaps.antt =====
-- misc/nanosecond_tick_wrap/init.c: the microseconds and the gaps that are printed, also when the
-- count of microseconds wraps round.
use rtems_examples.Common.{
  ℕ, ◌+◌, ◌-◌, ◌*◌, ◌/◌, ◌%◌, ◌^◌, ◌≤◌, ◌<◌, ◌≡◌, refl, ap₂, arith, List, [], ◌∷◌,
}
use rtems_examples.TickWrap.{Timespec, Line, uptime_usec, line, print_loop}
use mathlib.Core.List.{map}

-- The microseconds of a reading, of any size.
abbrev pub micro : Timespec → ℕ
micro t = t.tv_sec * 1000000 + t.tv_nsec / 1000

-- Each reading is not before the one in front of it, and fewer than 2^32 microseconds behind.
abbrev pub Follows : Timespec → List Timespec → Type 0
Follows before [] = Unit
Follows before (t ∷ ts) =
    (t.tv_nsec < 1000000000)
    × (micro before ≤ micro t)
    × (micro t < micro before + 2 ^ 32)
    × Follows t ts

-- What a line says: the microseconds put together again, and the gap.
abbrev pub says : Line → ℕ × ℕ
says l = (l.sec * 1000000 + l.msec * 1000 + l.usec, l.dt)

abbrev pub gaps : Timespec → List Timespec → List (ℕ × ℕ)
gaps before [] = []
gaps before (t ∷ ts) = (micro t % 2 ^ 32, micro t - micro before) ∷ gaps t ts

uptime_usec-micro : (t : Timespec) → t.tv_nsec < 1000000000 → uptime_usec t ≡ micro t % 2 ^ 32
unfolding uptime_usec
uptime_usec-micro t h = omega arith

says-line :
    (a b t0 t1 : ℕ)
    → t0 ≡ a % 2 ^ 32
    → t1 ≡ b % 2 ^ 32
    → a ≤ b
    → b < a + 2 ^ 32
    → says (line t0 t1) ≡ (b % 2 ^ 32, b - a)
unfolding line
says-line a b t0 t1 e f h k = ap₂ (λ x y. (x, y)) (omega arith) (omega arith)

-- For readings that follow one another within 2^32 microseconds, starting from the reading `before`
-- that `t0` stands for, each line shows the microseconds of its reading, less the multiples of 2^32,
-- and the microseconds since the reading before it, also where the count has wrapped round.
pub print_loop-gaps :
    (before : Timespec) (ts : List Timespec) (t0 : ℕ)
    → t0 ≡ micro before % 2 ^ 32
    → Follows before ts
    → map says (print_loop t0 ts) ≡ gaps before ts
unfolding print_loop
print_loop-gaps before [] t0 e h = refl
print_loop-gaps before (t ∷ ts) t0 e h =
    let now = uptime_usec-micro t h.0 in
    ap₂ ◌∷◌ (says-line (micro before) (micro t) t0 (uptime_usec t) e now h.1 h.2)
      (print_loop-gaps t ts (uptime_usec t) now h.3)
