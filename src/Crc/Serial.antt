-- ===== src/Crc/Serial.antt =====
-- The shift register that the table of crc_32.c stands for: one bit of data at a time, and eight.
use rtems_examples.Common.{
  ℕ, zero, suc, ◌+◌, ◌*◌, ◌/◌, ◌%◌, ◌^◌, ◌<◌, ◌≡◌, refl, ap, ◌∙◌, arith, Bool, true, List, [], ◌∷◌,
  ◌&&◌, ◌==◌, ==_iff, if◌then◌else◌, inl, inr, ◌⊎◌,
}
use rtems_examples.Common.Bits.{
  bit_xor_step, bit_xor-half, bit_xor-low, xor-zero, xor_self, xor_comm, xor_assoc,
}
use rtems_examples.Common.Lists.{length, get_or}
use rtems_examples.Crc.{to_byte, updc32}
use rtems_examples.Crc.Table.{crc_32_tab}
use Prim.Native.Nat.{bit_xor}
use native.Mathlib.Nat.{pow-suc, zero-add}

-- X^32+X^26+...+X^0 with the highest term in the lowest bit.
abbrev pub polynomial : ℕ
polynomial = 0xedb88320

unfoldable pub shift_bit : ℕ → ℕ
shift_bit crc = if crc % 2 == 1 then bit_xor (crc / 2) polynomial else crc / 2

unfoldable pub shift_bits : ℕ → ℕ → ℕ
shift_bits zero crc = crc
shift_bits (suc n) crc = shift_bits n (shift_bit crc)

shift_bit_even : (a : ℕ) → a % 2 ≡ 0 → shift_bit a ≡ a / 2
unfolding shift_bit
shift_bit_even a h = ground arith

shift_bit_odd : (a : ℕ) → a % 2 ≡ 1 → shift_bit a ≡ bit_xor (a / 2) polynomial
unfolding shift_bit
shift_bit_odd a h = ground arith

-- Moving one operand of three, and dropping one that stands twice.
xor_right_comm : (a b c : ℕ) → bit_xor (bit_xor a b) c ≡ bit_xor (bit_xor a c) b
xor_right_comm a b c = cc (xor_assoc a b c, xor_assoc a c b, xor_comm b c)

xor_twice : (a b c : ℕ) → bit_xor a b ≡ bit_xor (bit_xor a c) (bit_xor b c)
xor_twice a b c = cc (
  xor_assoc a c (bit_xor b c),
  xor_comm b c,
  xor_assoc c c b,
  xor_self c,
  xor_comm 0 b,
  xor-zero b,
)

-- The register is linear: it commutes with exclusive or.
shift_bit-xor : (a b : ℕ) → shift_bit (bit_xor a b) ≡ bit_xor (shift_bit a) (shift_bit b)
shift_bit-xor a b = elim (parity a) [
  | inl p ↦ elim (parity b) [
    | inl q ↦
        rw
          (
            shift_bit_even a p,
            shift_bit_even b q,
            shift_bit_even (bit_xor a b) (omega (arith, bit_xor-low a b)),
          )
          (bit_xor-half a b)
    | inr q ↦
        rw
          (
            shift_bit_even a p,
            shift_bit_odd b q,
            shift_bit_odd (bit_xor a b) (omega (arith, bit_xor-low a b)),
            bit_xor-half a b,
          )
          (xor_assoc _ _ _)
  ]
  | inr p ↦ elim (parity b) [
    | inl q ↦
        rw
          (
            shift_bit_odd a p,
            shift_bit_even b q,
            shift_bit_odd (bit_xor a b) (omega (arith, bit_xor-low a b)),
            bit_xor-half a b,
          )
          (xor_right_comm _ _ _)
    | inr q ↦
        rw
          (
            shift_bit_odd a p,
            shift_bit_odd b q,
            shift_bit_even (bit_xor a b) (omega (arith, bit_xor-low a b)),
            bit_xor-half a b,
          )
          (xor_twice _ _ _)
  ]
]
  where
    parity : (n : ℕ) → (n % 2 ≡ 0) ⊎ (n % 2 ≡ 1)
    parity n = ground arith

pub shift_bits-xor :
    (n a b : ℕ) → shift_bits n (bit_xor a b) ≡ bit_xor (shift_bits n a) (shift_bits n b)
unfolding shift_bits
shift_bits-xor zero a b = refl
shift_bits-xor (suc n) a b =
    ap (shift_bits n) (shift_bit-xor a b) ∙ shift_bits-xor n (shift_bit a) (shift_bit b)

-- A table whose first entry belongs to the octet `first` agrees with the register.
agrees_from : (first : ℕ) → List ℕ → Bool
agrees_from first [] = true
agrees_from first (entry ∷ entries) =
    (entry == shift_bits 8 first) && agrees_from (suc first) entries

agrees_at :
    (first : ℕ) (entries : List ℕ) (i : ℕ)
    → i < length entries
    → agrees_from first entries ≡ true
    → get_or entries i 0 ≡ shift_bits 8 (first + i)
unfolding agrees_from
agrees_at first [] i within e = elim within [ ]
agrees_at first (entry ∷ entries) zero within e =
    let here : entry ≡ shift_bits 8 first = ground (arith, ==_iff entry (shift_bits 8 first)) in
    let start : first + 0 ≡ first = omega arith in rw start here
agrees_at first (entry ∷ entries) (suc i) within e =
    let move : first + suc i ≡ suc first + i = omega arith in
    rw move (agrees_at (suc first) entries i (omega arith) (ground arith))

crc_32_tab_agrees : agrees_from 0 crc_32_tab ≡ true
unfolding agrees_from crc_32_tab shift_bits shift_bit
crc_32_tab_agrees = refl

length-crc_32_tab : length crc_32_tab ≡ 256
unfolding crc_32_tab
length-crc_32_tab = refl

crc_32_tab-shift_bits : (i : ℕ) → i < 256 → get_or crc_32_tab i 0 ≡ shift_bits 8 i
crc_32_tab-shift_bits i h =
    agrees_at 0 crc_32_tab i (omega (arith, length-crc_32_tab)) crc_32_tab_agrees
    ∙ ap (shift_bits 8) (zero-add i)

pow_suc_mul : (n q : ℕ) → 2 ^ suc n * q ≡ 2 * (2 ^ n * q)
pow_suc_mul n q = omega (arith, ap (λ (t : ℕ). t * q) (pow-suc 2 n))

shift_bit_double : (m : ℕ) → shift_bit (2 * m) ≡ m
shift_bit_double m = omega (arith, shift_bit_even (2 * m) (omega arith))

half_pow_suc : (n q : ℕ) → 2 ^ suc n * q / 2 ≡ 2 ^ n * q
half_pow_suc n q = omega (arith, pow_suc_mul n q)

-- A number whose low bits are clear only moves down.
pub shift_bits_clear : (n q : ℕ) → shift_bits n (2 ^ n * q) ≡ q
unfolding shift_bits
shift_bits_clear zero q = omega arith
shift_bits_clear (suc n) q =
    rw (pow_suc_mul n q, shift_bit_double (2 ^ n * q)) (shift_bits_clear n q)

-- Disjoint bits: an exclusive or of a low part and a multiple of a power of two is their sum.
pub xor_disjoint : (n r q : ℕ) → r < 2 ^ n → bit_xor r (2 ^ n * q) ≡ r + 2 ^ n * q
xor_disjoint zero r q h =
    let e : r ≡ 0 = omega arith in rw e (omega (arith, xor_comm 0 (1 * q), xor-zero (1 * q)))
xor_disjoint (suc n) r q h = omega (
  arith,
  bit_xor_step r (2 ^ suc n * q),
  pow_suc_mul n q,
  pow-suc 2 n,
  xor_disjoint n (r / 2) q (omega (arith, pow-suc 2 n)),
  ap (λ (t : ℕ). bit_xor (r / 2) t) (half_pow_suc n q),
)

-- Eight bits leave the register and the rest moves down.
pub shift_bits_split : (x : ℕ) → shift_bits 8 x ≡ bit_xor (shift_bits 8 (x % 2 ^ 8)) (x / 2 ^ 8)
shift_bits_split x =
    let split : x ≡ bit_xor (x % 2 ^ 8) (2 ^ 8 * (x / 2 ^ 8)) =
      omega (arith, xor_disjoint 8 (x % 2 ^ 8) (x / 2 ^ 8) (omega arith)) in
    ap (shift_bits 8) split
    ∙ shift_bits-xor 8 (x % 2 ^ 8) (2 ^ 8 * (x / 2 ^ 8))
    ∙ ap (bit_xor (shift_bits 8 (x % 2 ^ 8))) (shift_bits_clear 8 (x / 2 ^ 8))

xor_quarter : (a b : ℕ) → bit_xor a b / 2 ^ 2 ≡ bit_xor (a / 2 ^ 2) (b / 2 ^ 2)
xor_quarter a b =
    let e : a / 2 / 2 ≡ a / 4 = omega arith in
    let f : b / 2 / 2 ≡ b / 4 = omega arith in
    let g : bit_xor a b / 4 ≡ bit_xor a b / 2 / 2 = omega arith in
    rw (g, bit_xor-half a b, bit_xor-half (a / 2) (b / 2), e, f)

xor_low_nibble : (a b : ℕ) → bit_xor a b / 2 ^ 4 ≡ bit_xor (a / 2 ^ 4) (b / 2 ^ 4)
xor_low_nibble a b =
    let e : a / 4 / 4 ≡ a / 16 = omega arith in
    let f : b / 4 / 4 ≡ b / 16 = omega arith in
    let g : bit_xor a b / 16 ≡ bit_xor a b / 4 / 4 = omega arith in
    rw (g, xor_quarter a b, xor_quarter (a / 4) (b / 4), e, f)

pub xor_shr_byte : (a b : ℕ) → bit_xor a b / 2 ^ 8 ≡ bit_xor (a / 2 ^ 8) (b / 2 ^ 8)
xor_shr_byte a b =
    let e : a / 16 / 16 ≡ a / 256 = omega arith in
    let f : b / 16 / 16 ≡ b / 256 = omega arith in
    let g : bit_xor a b / 256 ≡ bit_xor a b / 16 / 16 = omega arith in
    rw (g, xor_low_nibble a b, xor_low_nibble (a / 16) (b / 16), e, f)

-- One table look-up does what the register does with the eight bits of an octet.
pub updc32-shift_bits :
    (octet crc : ℕ) → updc32 octet crc ≡ shift_bits 8 (bit_xor crc (to_byte octet))
unfolding updc32
updc32-shift_bits octet crc = rw (
  shift_bits_split (bit_xor crc (to_byte octet)),
  xor_shr_byte crc (to_byte octet),
  octet_gone,
  xor-zero (crc / 2 ^ 8),
  crc_32_tab-shift_bits (bit_xor crc (to_byte octet) % 2 ^ 8) (omega arith),
)
  where
    octet_gone : to_byte octet / 2 ^ 8 ≡ 0
    octet_gone = omega arith
