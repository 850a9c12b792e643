-- ===== src/Crc/Codeword.antt =====
-- What the checksums of crc_32.c promise to those who send and receive messages.
use rtems_examples.Common.{
  ℕ, ◌+◌, ◌-◌, ◌^◌, ◌≤◌, ◌<◌, ◌≡◌, refl, sym, ap, ◌∙◌, arith, Bool, if◌then◌else◌, some, List, [],
  ◌∷◌, ◌++◌,
}
use rtems_examples.Common.Lists.{length}
use rtems_examples.Crc.{
  to_byte, updc32, buf_loop, crc32buf, file_loop, crc32file, start_value, complement, opened,
  counted, minus_one, success,
}
use rtems_examples.Crc.Shift.{updc32-lt, updc32_injective, updc32-octet_injective}
use mathlib.Core.List.{append-nil}

-- The checksum as the register's run over all bytes of a message.
unfoldable pub register : List ℕ → ℕ → ℕ
register [] crc = crc
register (c ∷ message) crc = register message (updc32 c crc)

unfoldable pub checksum : ℕ → List ℕ → ℕ
checksum long_bits message = complement long_bits (register message start_value)

pub register-append :
    (xs ys : List ℕ) (crc : ℕ) → register (xs ++ ys) crc ≡ register ys (register xs crc)
unfolding register
register-append [] ys crc = refl
register-append (x ∷ xs) ys crc = register-append xs ys (updc32 x crc)

pub register-lt : (xs : List ℕ) (crc : ℕ) → crc < 2 ^ 32 → register xs crc < 2 ^ 32
unfolding register
register-lt [] crc h = h
register-lt (x ∷ xs) crc h = register-lt xs (updc32 x crc) (updc32-lt x crc h)

register_injective :
    (xs : List ℕ) (a b : ℕ) → a < 2 ^ 32 → b < 2 ^ 32 → register xs a ≡ register xs b → a ≡ b
unfolding register
register_injective [] a b h k e = e
register_injective (x ∷ xs) a b h k e =
    updc32_injective x a b h k
      (register_injective xs (updc32 x a) (updc32 x b) (updc32-lt x a h) (updc32-lt x b k) e)

buf_loop-register :
    (xs ys : List ℕ) (crc : ℕ) → buf_loop (length xs) (xs ++ ys) crc ≡ some (register xs crc)
unfolding buf_loop register
buf_loop-register [] ys crc = refl
buf_loop-register (x ∷ xs) ys crc = buf_loop-register xs ys (updc32 x crc)

-- `crc32buf` reads exactly the first `len` bytes of the buffer and returns their checksum.
pub crc32buf-checksum :
    (long_bits : ℕ) (xs ys : List ℕ)
    → crc32buf long_bits (xs ++ ys) (length xs) ≡ some (checksum long_bits xs)
unfolding crc32buf checksum
crc32buf-checksum long_bits xs ys = rw (buf_loop-register xs ys start_value, crc32buf)

file_loop-register :
    (xs : List ℕ) (n crc : ℕ) → file_loop xs n crc ≡ (n + length xs, register xs crc)
unfolding file_loop register
file_loop-register [] n crc = ground arith
file_loop-register (x ∷ xs) n crc = ground (arith, file_loop-register xs (n + 1) (updc32 x crc))

pub crc32buf_whole :
    (long_bits : ℕ) (xs : List ℕ) → crc32buf long_bits xs (length xs) ≡ some (checksum long_bits xs)
crc32buf_whole long_bits xs = rw append-nil at (crc32buf-checksum long_bits xs [])

-- A file that can be opened, with fewer bytes than a `long` can count, gets the checksum of a buffer
-- with its bytes, whether or not reading ended in an error; the count is the number of bytes, and -1
-- after an error.
pub crc32file-crc32buf :
    (long_bits : ℕ) (contents : List ℕ) (failed : Bool)
    → length contents < 2 ^ (long_bits - 1)
    → ((crc32file long_bits (opened contents failed)).status ≡ success)
      × ((crc32file long_bits (opened contents failed)).crc
          ≡ crc32buf long_bits contents (length contents))
      × ((crc32file long_bits (opened contents failed)).charcnt
          ≡ (if failed then minus_one else counted (length contents)))
unfolding crc32file checksum
crc32file-crc32buf long_bits contents failed few =
    rw (file_loop-register contents 0 start_value)
      (refl, sym (crc32buf_whole long_bits contents), ground (arith, few))

some_eq : {a b : ℕ} → some a ≡ some b → a ≡ b
some_eq e = cc

-- A checksum of 32 bits tells the register, since the complement can be undone.
register_of_checksum :
    (xs ys : List ℕ)
    → checksum 32 xs ≡ checksum 32 ys
    → register xs start_value ≡ register ys start_value
unfolding checksum
register_of_checksum xs ys e =
    omega
      (arith, register-lt xs start_value (omega arith), register-lt ys start_value (omega arith))

-- Two messages that differ in one byte have different checksums.
pub checksum-one_byte :
    (before after : List ℕ) (a b : ℕ)
    → crc32buf 32 (before ++ a ∷ after) (length (before ++ a ∷ after))
      ≡ crc32buf 32 (before ++ b ∷ after) (length (before ++ b ∷ after))
    → to_byte a ≡ to_byte b
unfolding register
checksum-one_byte before after a b e =
    updc32-octet_injective a b (register before start_value)
      (register-lt before start_value (omega arith))
      (register_injective after (updc32 a (register before start_value))
        (updc32 b (register before start_value))
        (updc32-lt a _ (register-lt before start_value (omega arith)))
        (updc32-lt b _ (register-lt before start_value (omega arith)))
        (sym (register-append before (a ∷ after) start_value)
          ∙ register_of_checksum (before ++ a ∷ after) (before ++ b ∷ after) same
          ∙ register-append before (b ∷ after) start_value))
  where
    same : checksum 32 (before ++ a ∷ after) ≡ checksum 32 (before ++ b ∷ after)
    same = some_eq (
        sym (crc32buf_whole 32 (before ++ a ∷ after)) ∙ e ∙ crc32buf_whole 32 (before ++ b ∷ after))

-- On a target whose `unsigned long` is wider than 32 bits, `crc32buf` returns the 32-bit checksum
-- with every higher bit set, so its low 32 bits are the checksum.
pub crc32buf-long_bits :
    (long_bits : ℕ) (xs : List ℕ) (narrow : ℕ)
    → 2 ^ 32 ≤ 2 ^ long_bits
    → crc32buf 32 xs (length xs) ≡ some narrow
    → (narrow < 2 ^ 32)
      × (crc32buf long_bits xs (length xs) ≡ some (2 ^ long_bits - 2 ^ 32 + narrow))
crc32buf-long_bits long_bits xs narrow h e =
    (omega (arith, value), crc32buf_whole long_bits xs ∙ ap some wide)
  where
    value : narrow ≡ 2 ^ 32 - 1 - register xs start_value
    value = some_eq (sym e ∙ crc32buf_whole 32 xs) ∙ (unfold checksum in refl)

    wide : checksum long_bits xs ≡ 2 ^ long_bits - 2 ^ 32 + narrow
    wide = unfold checksum in omega (arith, value, register-lt xs start_value (omega arith))
