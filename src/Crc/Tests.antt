-- ===== src/Crc/Tests.antt =====
-- Runs of the routines of file_io/crc, and the theorems at concrete messages.
use rtems_examples.Common.{
  arith, ℕ, ◌≡◌, refl, true, none, some, List, [], ◌∷◌, ◌++◌, if◌then◌else◌,
}
use rtems_examples.Common.Lists.{length}
use rtems_examples.Crc.{
  to_byte, updc32, update_crc32, buf_loop, crc32buf, crc32file, init, opened, closed, counted,
  minus_one, success, printed, cannot_unpack,
}
use rtems_examples.Crc.Table.{crc_32_tab}
use rtems_examples.Crc.Serial.{shift_bits, updc32-shift_bits}
use rtems_examples.Crc.Codeword.{crc32file-crc32buf, checksum-one_byte}
use rtems_examples.Crc.Residue.{low_byte_first, crc32buf-residue}
use Prim.Native.Nat.{bit_xor}

abbrev digits : List ℕ
digits = b'1' ∷ b'2' ∷ b'3' ∷ b'4' ∷ b'5' ∷ b'6' ∷ b'7' ∷ b'8' ∷ b'9' ∷ []

check_value : crc32buf 32 digits 9 ≡ some 0xcbf43926
unfolding crc32buf buf_loop updc32 crc_32_tab
check_value = refl

past_the_end : crc32buf 32 digits 10 ≡ none
unfolding crc32buf buf_loop updc32 crc_32_tab
past_the_end = refl

one_octet : update_crc32 b'a' 0xffffffff ≡ 0x174841bc
unfolding update_crc32 updc32 crc_32_tab
one_octet = refl

-- The status of `crc32file` is not tested, so a missing file prints a `crc` that nothing stored.
missing_file : init 32 0 closed ≡ printed none (counted 0)
unfolding init crc32file
missing_file = refl

untar_fails : init 32 1 closed ≡ cannot_unpack
unfolding init
untar_fails = refl

updc32-shift_bits_example :
    updc32 b'a' 0xffffffff ≡ shift_bits 8 (bit_xor 0xffffffff (to_byte b'a'))
updc32-shift_bits_example = updc32-shift_bits b'a' 0xffffffff

crc32file-crc32buf_example :
    ((crc32file 32 (opened digits true)).status ≡ success)
    × ((crc32file 32 (opened digits true)).crc ≡ crc32buf 32 digits (length digits))
    × ((crc32file 32 (opened digits true)).charcnt
        ≡ (if true then minus_one else counted (length digits)))
crc32file-crc32buf_example = crc32file-crc32buf 32 digits true (omega arith)

same_buffers : crc32buf 32 (1 ∷ 2 ∷ 3 ∷ []) 3 ≡ crc32buf 32 (1 ∷ 258 ∷ 3 ∷ []) 3
unfolding crc32buf buf_loop updc32 crc_32_tab
same_buffers = refl

checksum-one_byte_example : to_byte 2 ≡ to_byte 258
checksum-one_byte_example = checksum-one_byte (1 ∷ []) (3 ∷ []) 2 258 same_buffers

crc32buf-residue_example :
    crc32buf 32 (digits ++ low_byte_first 0xcbf43926) (length (digits ++ low_byte_first 0xcbf43926))
    ≡ some 0x2144df1c
crc32buf-residue_example = crc32buf-residue digits 0xcbf43926 check_value
