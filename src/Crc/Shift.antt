-- ===== src/Crc/Shift.antt =====
-- The register of crc_32.c keeps 32 bits, and loses nothing: each step can be undone.
use rtems_examples.Common.{
  ℕ, zero, suc, ◌+◌, ◌*◌, ◌/◌, ◌^◌, ◌≤◌, ◌<◌, ◌≡◌, sym, ap, ◌∙◌, arith, if◌then◌else◌, ltb,
}
use rtems_examples.Common.Bits.{xor_comm, xor_cancel, xor-lt}
use rtems_examples.Crc.{to_byte, updc32}
use rtems_examples.Crc.Serial.{shift_bit, shift_bits, polynomial, updc32-shift_bits}
use Prim.Native.Nat.{bit_xor}

shift_bit-lt : (x : ℕ) → x < 2 ^ 32 → shift_bit x < 2 ^ 32
unfolding shift_bit
shift_bit-lt x h = ground (arith, xor-lt 32 (x / 2) polynomial)

shift_bits-lt : (n x : ℕ) → x < 2 ^ 32 → shift_bits n x < 2 ^ 32
unfolding shift_bits
shift_bits-lt zero x h = h
shift_bits-lt (suc n) x h = shift_bits-lt n (shift_bit x) (shift_bit-lt x h)

-- The register never leaves 32 bits.
pub updc32-lt : (octet crc : ℕ) → crc < 2 ^ 32 → updc32 octet crc < 2 ^ 32
updc32-lt octet crc h =
    rw (updc32-shift_bits octet crc) (
      shift_bits-lt 8 (bit_xor crc (to_byte octet)) (xor-lt 32 crc (to_byte octet) h (omega arith)))

-- The polynomial has the top bit, so the step before is told by the top bit.
pub unshift_bit : ℕ → ℕ
unshift_bit y = if ltb y (2 ^ 31) then y * 2 else bit_xor y polynomial * 2 + 1

top_bit : (a : ℕ) → a < 2 ^ 31 → 2 ^ 31 ≤ bit_xor a polynomial
top_bit a h =
    ground
      (arith, xor-lt 31 (bit_xor polynomial a) a, xor_cancel polynomial a, xor_comm a polynomial)

pub unshift_bit-shift_bit : (x : ℕ) → x < 2 ^ 32 → unshift_bit (shift_bit x) ≡ x
unfolding shift_bit unshift_bit
unshift_bit-shift_bit x h = ground (arith, top_bit (x / 2), xor_cancel (x / 2) polynomial)

pub shift_bits_injective :
    (n x y : ℕ) → x < 2 ^ 32 → y < 2 ^ 32 → shift_bits n x ≡ shift_bits n y → x ≡ y
unfolding shift_bits
shift_bits_injective zero x y h k e = e
shift_bits_injective (suc n) x y h k e =
    sym (unshift_bit-shift_bit x h)
    ∙ ap unshift_bit
        (shift_bits_injective n (shift_bit x) (shift_bit y) (shift_bit-lt x h) (shift_bit-lt y k) e)
    ∙ unshift_bit-shift_bit y k

module _ (octet : ℕ) (x y : ℕ) (h : x < 2 ^ 32) (k : y < 2 ^ 32) where
  pub updc32_injective : updc32 octet x ≡ updc32 octet y → x ≡ y
  updc32_injective e =
      sym (xor_cancel x (to_byte octet))
      ∙ ap (λ t. bit_xor t (to_byte octet))
          (shift_bits_injective 8 (bit_xor x (to_byte octet)) (bit_xor y (to_byte octet))
            (xor-lt 32 x (to_byte octet) h (omega arith))
            (xor-lt 32 y (to_byte octet) k (omega arith))
            (sym (updc32-shift_bits octet x) ∙ e ∙ updc32-shift_bits octet y))
      ∙ xor_cancel y (to_byte octet)

pub updc32-octet_injective :
    (a b crc : ℕ) → crc < 2 ^ 32 → updc32 a crc ≡ updc32 b crc → to_byte a ≡ to_byte b
updc32-octet_injective a b crc h e =
    sym (xor_cancel (to_byte a) crc) ∙ ap (λ t. bit_xor t crc) same ∙ xor_cancel (to_byte b) crc
  where
    same : bit_xor (to_byte a) crc ≡ bit_xor (to_byte b) crc
    same =
        xor_comm (to_byte a) crc
        ∙ shift_bits_injective 8 (bit_xor crc (to_byte a)) (bit_xor crc (to_byte b))
            (xor-lt 32 crc (to_byte a) h (omega arith)) (xor-lt 32 crc (to_byte b) h (omega arith))
            (sym (updc32-shift_bits a crc) ∙ e ∙ updc32-shift_bits b crc)
        ∙ xor_comm crc (to_byte b)
