-- ===== src/Complex1/Periodic/Names.antt =====
-- The names and the numbers of led/complex1/periodic.c.
use rtems_examples.Common.{ℕ, zero, suc, ◌-◌, ◌*◌, ◌/◌, ◌%◌, ◌≤◌, ◌<◌, ◌≡◌, ◌≢◌, arith}
use rtems_examples.Complex1.Periodic.{hex_digit, build_name, task_name, period_name, factorial}

hex_digit_injective : (a b : ℕ) → a < 16 → b < 16 → hex_digit a ≡ hex_digit b → a ≡ b
unfolding hex_digit
hex_digit_injective a b h k e = ground arith

hex_digit-lt : (a : ℕ) → a < 16 → hex_digit a < 256
unfolding hex_digit
hex_digit-lt a h = ground arith

build_name_injective :
    (a b c d e f g h : ℕ)
    → c < 256
    → d < 256
    → g < 256
    → h < 256
    → b < 256
    → f < 256
    → build_name a b c d ≡ build_name e f g h
    → (a ≡ e) × (b ≡ f) × (c ≡ g) × (d ≡ h)
unfolding build_name
build_name_injective a b c d e f g h p q r s t u eq = omega arith

same_number :
    (a b c d i j : ℕ)
    → b < 256
    → d < 256
    → i < 256
    → j < 256
    → build_name a b (hex_digit (i / 16)) (hex_digit (i % 16))
      ≡ build_name c d (hex_digit (j / 16)) (hex_digit (j % 16))
    → (a ≡ c) × (i ≡ j)
same_number a b c d i j p q h k e =
    let parts =
      build_name_injective a b (hex_digit (i / 16)) (hex_digit (i % 16)) c d (hex_digit (j / 16))
        (hex_digit (j % 16)) (hex_digit-lt (i / 16) (omega arith))
        (hex_digit-lt (i % 16) (omega arith)) (hex_digit-lt (j / 16) (omega arith))
        (hex_digit-lt (j % 16) (omega arith)) p q e in
    let high : i / 16 ≡ j / 16 =
      hex_digit_injective (i / 16) (j / 16) (omega arith) (omega arith) parts.2 in
    let low : i % 16 ≡ j % 16 =
      hex_digit_injective (i % 16) (j % 16) (omega arith) (omega arith) parts.3 in
    (parts.0, omega arith)

-- Threads with different numbers below 256 have different task names, period names too, and no
-- task has the name of a period.
pub names_distinct :
    (i j : ℕ)
    → i < 256
    → j < 256
    → i ≢ j
    → (task_name i ≢ task_name j) × (period_name i ≢ period_name j) × (task_name i ≢ period_name j)
unfolding task_name period_name
names_distinct i j h k ne = (
  λ e. ne (same_number b'T' b'A' b'T' b'A' i j (omega arith) (omega arith) h k e).1,
  λ e. ne (same_number b'P' b'E' b'P' b'E' i j (omega arith) (omega arith) h k e).1,
  λ e.
      absurd
        (omega (arith, (same_number b'T' b'A' b'P' b'E' i j (omega arith) (omega arith) h k e).0)),
)

-- `factorial` is i * (i - 1): from 4 on that is less than the factorial.
pub product : ℕ → ℕ
product zero = 1
product (suc n) = suc n * product n

two-le-product : (m : ℕ) → 2 ≤ product (suc (suc m))
unfolding product
two-le-product zero = omega arith
two-le-product (suc m) = grind (arith, two-le-product m)

grow : (a b p : ℕ) → 0 < a * b → 2 ≤ p → a * b < a * (b * p)
grow a b p h k = grind arith

-- From 4 on `factorial` is less than the factorial.
pub factorial-lt-product : (n : ℕ) → 4 ≤ n → factorial n < product n
unfolding factorial product
factorial-lt-product (suc (suc (suc (suc m)))) h =
    let step : suc (suc (suc (suc m))) - 1 ≡ suc (suc (suc m)) = omega arith in
    ground (
      arith,
      step,
      grow (suc (suc (suc (suc m)))) (suc (suc (suc m))) (product (suc (suc m))) (grind arith)
          (two-le-product m),
    )
factorial-lt-product _ h = absurd (omega arith)
