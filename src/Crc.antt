-- ===== src/Crc.antt =====
-- file_io/crc: the CRC-32 routines of crc_32.c with the macro `UPDC32` of crc.h, and the task of
-- init.c that prints the checksum of a file.
-- A `DWORD` is an `unsigned long`, so its width in bits is an argument; a byte is its bit pattern.
mod Table
mod Serial
mod Shift
mod Codeword
mod Residue
mod Tests
use rtems_examples.Common.{
  ℕ, zero, suc, ◌+◌, ◌-◌, ◌*◌, ◌/◌, ◌%◌, ◌^◌, Bool, true, false, Option, none, some, List, [], ◌∷◌,
  if◌then◌else◌, ltb,
}
use rtems_examples.Common.Lists.{get_or}
use Prim.Native.Nat.{bit_xor}
use Table.{crc_32_tab}

-- The cast to `BYTE`, an `unsigned char`.
abbrev pub to_byte : ℕ → ℕ
to_byte octet = octet % 2 ^ 8

-- `UPDC32(octet, crc)`. The index is below 256, so it is in range of the table.
pub updc32 : ℕ → ℕ → ℕ
updc32 octet crc = bit_xor (get_or crc_32_tab (bit_xor crc (to_byte octet) % 2 ^ 8) 0) (crc / 2 ^ 8)

pub update_crc32 : ℕ → ℕ → ℕ
update_crc32 ch crc = updc32 ch crc

abbrev pub start_value : ℕ
start_value = 0xFFFFFFFF

-- `~x` at an unsigned type of `bits` bits.
abbrev pub complement : ℕ → ℕ → ℕ
complement bits x = 2 ^ bits - 1 - x

-- The loop of `crc32buf`, with `len` rounds left; `none` is a read past the end of the buffer.
pub buf_loop : ℕ → List ℕ → ℕ → Option ℕ
buf_loop zero buf oldcrc32 = some oldcrc32
buf_loop (suc len) [] oldcrc32 = none
buf_loop (suc len) (c ∷ buf) oldcrc32 = buf_loop len buf (updc32 c oldcrc32)

pub crc32buf : ℕ → List ℕ → ℕ → Option ℕ
crc32buf long_bits buf len = elim (buf_loop len buf start_value) [
  | none ↦ none
  | some oldcrc32 ↦ some (complement long_bits oldcrc32)
]

-- What the C library does for `fopen`, `getc` and `ferror`: the file cannot be opened, or `getc`
-- hands out `contents` and then EOF, which stands for an error if `failed`.
pub data Stream : Type 0 where
  closed : Stream
  opened : (contents : List ℕ) (failed : Bool) → Stream

-- `charcnt` is a count, or the -1 that reports a read error; `overflowed` is an increment that leaves
-- the range of a `long`, which C leaves undefined.
pub data Count : Type 0 where
  counted : ℕ → Count
  minus_one overflowed : Count

pub data BooleanT : Type 0 where
  error success : BooleanT

-- What `crc32file` returns and leaves in `*crc` (`none` where it stores nothing) and `*charcnt`.
pub record FileResult : Type 0 where
  pub status : BooleanT
  pub crc : Option ℕ
  pub charcnt : Count

-- The loop over `getc`: the count and the register at EOF.
pub file_loop : List ℕ → ℕ → ℕ → ℕ × ℕ
file_loop [] charcnt oldcrc32 = (charcnt, oldcrc32)
file_loop (c ∷ rest) charcnt oldcrc32 = file_loop rest (charcnt + 1) (updc32 c oldcrc32)

pub crc32file : ℕ → Stream → FileResult
crc32file long_bits closed = record { status = error; crc = none; charcnt = counted 0 }
crc32file long_bits (opened contents failed) =
    let (charcnt, oldcrc32) = file_loop contents 0 start_value in
    record {
      status = success;
      crc = some (complement long_bits oldcrc32);
      charcnt =
          if ltb charcnt (2 ^ (long_bits - 1))
          then (if failed then minus_one else counted charcnt)
          else overflowed;
    }

-- `Init` of init.c after the banner: `untar` is what `Untar_FromMemory` returned. The status of
-- `crc32file` is not looked at, and `printed none _` prints a `crc` that was never stored.
pub data Report : Type 0 where
  cannot_unpack : Report
  printed : Option ℕ → Count → Report

pub init : ℕ → ℕ → Stream → Report
init long_bits zero in_file = let r = crc32file long_bits in_file in printed r.crc r.charcnt
init long_bits (suc _) in_file = cannot_unpack
