-- ===== src/Crc/Residue.antt =====
-- The residue of crc_32.c: a message followed by its own checksum always leaves one value.
use rtems_examples.Common.{
  ℕ, zero, suc, ◌+◌, ◌-◌, ◌*◌, ◌/◌, ◌%◌, ◌^◌, ◌<◌, ◌≡◌, refl, sym, ap, ◌∙◌, arith, some, List, [],
  ◌∷◌, ◌++◌,
}
use rtems_examples.Common.Bits.{bit_xor_step, xor_assoc, xor_self}
use rtems_examples.Common.Lists.{length}
use rtems_examples.Crc.{to_byte, updc32, crc32buf, start_value, complement}
use rtems_examples.Crc.Serial.{
  shift_bit, shift_bits, shift_bits-xor, shift_bits_clear, xor_disjoint, updc32-shift_bits,
}
use rtems_examples.Crc.Codeword.{register, register-append, register-lt, checksum, crc32buf_whole}
use Prim.Native.Nat.{bit_xor}
use native.Mathlib.Nat.{pow-suc}

-- The bytes of a checksum in the order in which the comment of crc_32.c has them transmitted.
abbrev pub low_byte_first : ℕ → List ℕ
low_byte_first x = x % 2 ^ 8 ∷ x / 2 ^ 8 % 2 ^ 8 ∷ x / 2 ^ 16 % 2 ^ 8 ∷ x / 2 ^ 24 % 2 ^ 8 ∷ []

absorb : (n a b : ℕ) → bit_xor (shift_bits n a) b ≡ shift_bits n (bit_xor a (2 ^ n * b))
absorb n a b =
    ap (bit_xor (shift_bits n a)) (sym (shift_bits_clear n b))
    ∙ sym (shift_bits-xor n a (2 ^ n * b))

xor_complement : (k c : ℕ) → c < 2 ^ k → bit_xor c (2 ^ k - 1 - c) ≡ 2 ^ k - 1
xor_complement zero c h = let e : c ≡ 0 = omega arith in rw (e, xor_self 0)
xor_complement (suc k) c h = omega (
  arith,
  pow-suc 2 k,
  bit_xor_step c (2 ^ suc k - 1 - c),
  ap (bit_xor (c / 2)) (half k c h),
  xor_complement k (c / 2) (omega (arith, pow-suc 2 k)),
)
  where
    half : (k c : ℕ) → c < 2 ^ suc k → (2 ^ suc k - 1 - c) / 2 ≡ 2 ^ k - 1 - c / 2
    half k c h = omega (arith, pow-suc 2 k)

xor_bytes :
    (x : ℕ)
    → x < 2 ^ 32
    → bit_xor
        (bit_xor
          (bit_xor (x % 2 ^ 8) (2 ^ 8 * (x / 2 ^ 8 % 2 ^ 8)))
          (2 ^ 16 * (x / 2 ^ 16 % 2 ^ 8)))
        (2 ^ 24 * (x / 2 ^ 24 % 2 ^ 8))
      ≡ x
xor_bytes x h =
    rw
      (
        xor_disjoint 8 (x % 2 ^ 8) (x / 2 ^ 8 % 2 ^ 8) (omega arith),
        xor_disjoint 16 (x % 2 ^ 8 + 2 ^ 8 * (x / 2 ^ 8 % 2 ^ 8)) (x / 2 ^ 16 % 2 ^ 8)
            (omega arith),
        xor_disjoint 24 (x % 2 ^ 8 + 2 ^ 8 * (x / 2 ^ 8 % 2 ^ 8) + 2 ^ 16 * (x / 2 ^ 16 % 2 ^ 8))
            (x / 2 ^ 24 % 2 ^ 8) (omega arith),
      )
      (omega arith)

-- The bytes of the register's four steps, moved to its start.
register-four :
    (a b c d crc : ℕ)
    → register (a ∷ b ∷ c ∷ d ∷ []) crc
      ≡ shift_bits 32 (
          bit_xor
            (bit_xor (bit_xor (bit_xor crc (to_byte a)) (2 ^ 8 * to_byte b)) (2 ^ 16 * to_byte c))
            (2 ^ 24 * to_byte d))
unfolding register shift_bits
register-four a b c d crc =
    let w = bit_xor crc (to_byte a) in
    let x = bit_xor w (2 ^ 8 * to_byte b) in
    let y = bit_xor x (2 ^ 16 * to_byte c) in
    let first : updc32 a crc ≡ shift_bits 8 w = updc32-shift_bits a crc in
    let second : updc32 b (shift_bits 8 w) ≡ shift_bits 16 x =
      updc32-shift_bits b (shift_bits 8 w) ∙ ap (shift_bits 8) (absorb 8 w (to_byte b)) in
    let third : updc32 c (shift_bits 16 x) ≡ shift_bits 24 y =
      updc32-shift_bits c (shift_bits 16 x) ∙ ap (shift_bits 8) (absorb 16 x (to_byte c)) in
    ap (λ t. updc32 d (updc32 c (updc32 b t))) first
    ∙ ap (λ t. updc32 d (updc32 c t)) second
    ∙ ap (updc32 d) third
    ∙ updc32-shift_bits d (shift_bits 24 y)
    ∙ ap (shift_bits 8) (absorb 24 y (to_byte d))

low_byte : (t : ℕ) → t % 256 % 256 ≡ t % 256
low_byte t = omega arith

xor_four :
    (crc a b c d : ℕ)
    → bit_xor (bit_xor (bit_xor (bit_xor crc a) b) c) d
      ≡ bit_xor crc (bit_xor (bit_xor (bit_xor a b) c) d)
xor_four crc a b c d = simp xor_assoc

register-low_byte_first :
    (x crc : ℕ) → x < 2 ^ 32 → register (low_byte_first x) crc ≡ shift_bits 32 (bit_xor crc x)
register-low_byte_first x crc h =
    register-four (x % 2 ^ 8) (x / 2 ^ 8 % 2 ^ 8) (x / 2 ^ 16 % 2 ^ 8) (x / 2 ^ 24 % 2 ^ 8) crc
    ∙ ap (shift_bits 32) (
        simp low_byte (
          xor_four crc (x % 2 ^ 8) (2 ^ 8 * (x / 2 ^ 8 % 2 ^ 8)) (2 ^ 16 * (x / 2 ^ 16 % 2 ^ 8))
            (2 ^ 24 * (x / 2 ^ 24 % 2 ^ 8))
          ∙ ap (bit_xor crc) (xor_bytes x h)))

all_ones : shift_bits 32 (2 ^ 32 - 1) ≡ 0xdebb20e3
unfolding shift_bits shift_bit
all_ones = refl

checksum_of :
    (message : List ℕ) (crc : ℕ)
    → crc32buf 32 message (length message) ≡ some crc
    → crc ≡ complement 32 (register message start_value)
unfolding checksum
checksum_of message crc e = ground (arith, crc32buf_whole 32 message)

-- A message followed by its checksum, low byte first, has the checksum 0x2144df1c whatever the
-- message is, so a receiver can test a frame without taking it apart.
pub crc32buf-residue :
    (message : List ℕ) (crc : ℕ)
    → crc32buf 32 message (length message) ≡ some crc
    → crc32buf 32 (message ++ low_byte_first crc) (length (message ++ low_byte_first crc))
      ≡ some 0x2144df1c
crc32buf-residue message crc e = crc32buf_whole 32 (message ++ low_byte_first crc) ∙ ap some residue
  where
    sent : crc ≡ complement 32 (register message start_value)
    sent = checksum_of message crc e

    below : register message start_value < 2 ^ 32
    below = register-lt message start_value (omega arith)

    left : register (message ++ low_byte_first crc) start_value ≡ 0xdebb20e3
    left =
        register-append message (low_byte_first crc) start_value
        ∙ register-low_byte_first crc (register message start_value) (omega (arith, sent))
        ∙ ap (λ t. shift_bits 32 (bit_xor (register message start_value) t)) sent
        ∙ ap (shift_bits 32) (xor_complement 32 (register message start_value) below)
        ∙ all_ones

    residue : checksum 32 (message ++ low_byte_first crc) ≡ 0x2144df1c
    residue = unfold checksum in rw left
