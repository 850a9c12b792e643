-- ===== src/Common/Bits.antt =====
-- Exclusive or on the native numbers, at every width, from its recursion on binary digits.
use Prim.Native.Nat.{
  ℕ, zero, suc, ◌+◌, ◌-◌, ◌*◌, ◌/◌, ◌%◌, ◌^◌, ◌≤◌, ◌<◌, bit_xor, digits, bit_xor-bitwise, differ,
}
use mathlib.Core.Path.{◌≡◌, ◌∙◌, ap, refl}
use native.Mathlib.Nat.{le_refl, pow-suc, zero-add}
use native.Mathlib.Omega.{arith}

-- Exclusive or as the recursion that it means, on `budget` digits of the first number.
abbrev xor_run : ℕ → ℕ → ℕ → ℕ
xor_run budget x y = digits (λ rest. rest) differ budget x y

one_digit : (d e : ℕ) → d ≤ 1 → e ≤ 1 → differ d e ≡ (d + e) % 2
one_digit zero e hd he = omega arith
one_digit (suc (suc d)) e hd he = absurd (omega arith)
one_digit (suc zero) zero hd he = refl
one_digit (suc zero) (suc e) hd he = let last : e ≡ 0 = omega arith in rw last

-- One digit more than the number has makes no difference, and so any number of them.
run_longer : (x budget y : ℕ) → x ≤ budget → xor_run (suc budget) x y ≡ xor_run budget x y
run_longer zero zero y fits = refl
run_longer zero (suc budget) y fits = refl
run_longer (suc x) zero y fits = elim fits [ ]
run_longer (suc x) (suc budget) y fits =
    ap (λ high. high * 2 + differ (suc x % 2) (y % 2))
      (run_longer (suc x / 2) budget (y / 2) (omega arith))

run_shorter :
    (surplus x y : ℕ) (budget : ℕ) → budget ≡ surplus + x → xor_run budget x y ≡ xor_run x x y
run_shorter zero x y budget e = ap (λ n. xor_run n x y) (e ∙ zero-add x)
run_shorter (suc surplus) x y zero e = absurd (omega arith)
run_shorter (suc surplus) x y (suc budget) e =
    run_longer x budget y (omega arith) ∙ run_shorter surplus x y budget (omega arith)

-- The lowest digit of an exclusive or, and the rest.
pub bit_xor_step : (a b : ℕ) → bit_xor a b ≡ bit_xor (a / 2) (b / 2) * 2 + (a + b) % 2
bit_xor_step zero b = ◌∙◌ (bit_xor-bitwise 0 b) (omega (arith, bit_xor-bitwise 0 (b / 2)))
bit_xor_step (suc a) b = omega (
  arith,
  bit_xor-bitwise (suc a) b,
  bit_xor-bitwise (suc a / 2) (b / 2),
  run_shorter (a - suc a / 2) (suc a / 2) (b / 2) a (omega arith),
  one_digit (suc a % 2) (b % 2) (omega arith) (omega arith),
)

pub bit_xor-half : (a b : ℕ) → bit_xor a b / 2 ≡ bit_xor (a / 2) (b / 2)
bit_xor-half a b = omega (arith, bit_xor_step a b)

pub bit_xor-low : (a b : ℕ) → bit_xor a b % 2 ≡ (a + b) % 2
bit_xor-low a b = omega (arith, bit_xor_step a b)

-- The laws hold for all numbers below a bound `n` on which the proofs recur.
xor_zero_below : (n a : ℕ) → a ≤ n → bit_xor a 0 ≡ a
xor_zero_below zero zero h = refl
xor_zero_below zero (suc a) h = absurd (omega arith)
xor_zero_below (suc n) a h = omega (arith, bit_xor_step a 0, xor_zero_below n (a / 2) (omega arith))

xor_self_below : (n a : ℕ) → a ≤ n → bit_xor a a ≡ 0
xor_self_below zero zero h = refl
xor_self_below zero (suc a) h = absurd (omega arith)
xor_self_below (suc n) a h = omega (arith, bit_xor_step a a, xor_self_below n (a / 2) (omega arith))

xor_comm_below : (n a b : ℕ) → a ≤ n → b ≤ n → bit_xor a b ≡ bit_xor b a
xor_comm_below zero zero zero h k = refl
xor_comm_below zero (suc a) b h k = absurd (omega arith)
xor_comm_below zero zero (suc b) h k = absurd (omega arith)
xor_comm_below (suc n) a b h k = omega (
  arith,
  bit_xor_step a b,
  bit_xor_step b a,
  xor_comm_below n (a / 2) (b / 2) (omega arith) (omega arith),
)

xor_assoc_below :
    (n a b c : ℕ) → a ≤ n → b ≤ n → c ≤ n → bit_xor (bit_xor a b) c ≡ bit_xor a (bit_xor b c)
xor_assoc_below zero zero zero zero h k l = refl
xor_assoc_below zero (suc a) b c h k l = absurd (omega arith)
xor_assoc_below zero zero (suc b) c h k l = absurd (omega arith)
xor_assoc_below zero zero zero (suc c) h k l = absurd (omega arith)
xor_assoc_below (suc n) a b c h k l =
    rw
      (
        bit_xor_step (bit_xor a b) c,
        bit_xor_step a (bit_xor b c),
        bit_xor-half a b,
        bit_xor-half b c,
        xor_assoc_below n (a / 2) (b / 2) (c / 2) (omega arith) (omega arith) (omega arith),
      )
      (omega (arith, bit_xor-low a b, bit_xor-low b c))

pub xor-zero : (a : ℕ) → bit_xor a 0 ≡ a
xor-zero a = xor_zero_below a a (le_refl _)

pub xor_self : (a : ℕ) → bit_xor a a ≡ 0
xor_self a = xor_self_below a a (le_refl _)

pub xor_comm : (a b : ℕ) → bit_xor a b ≡ bit_xor b a
xor_comm a b = xor_comm_below (a + b) a b (omega arith) (omega arith)

pub xor_assoc : (a b c : ℕ) → bit_xor (bit_xor a b) c ≡ bit_xor a (bit_xor b c)
xor_assoc a b c = xor_assoc_below (a + b + c) a b c (omega arith) (omega arith) (omega arith)

-- Exclusive or with a fixed number undoes itself.
pub xor_cancel : (a b : ℕ) → bit_xor (bit_xor a b) b ≡ a
xor_cancel a b = rw (xor_assoc a b b, xor_self b) (xor-zero a)

pub xor-lt : (k a b : ℕ) → a < 2 ^ k → b < 2 ^ k → bit_xor a b < 2 ^ k
xor-lt zero zero zero h l = omega arith
xor-lt zero (suc a) b h l = absurd (omega arith)
xor-lt zero zero (suc b) h l = absurd (omega arith)
xor-lt (suc k) a b h l = omega (
  arith,
  pow-suc 2 k,
  bit_xor_step a b,
  xor-lt k (a / 2) (b / 2) (omega (arith, pow-suc 2 k)) (omega (arith, pow-suc 2 k)),
)
