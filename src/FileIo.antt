-- ===== src/FileIo.antt =====
-- file_io/filerdback/test.c and file_io/repeated_opens/test.c, on the answers of the file system.
mod Readback
mod Descriptors
mod Tests
use rtems_examples.Common.{
  ℕ, zero, suc, ◌+◌, ◌-◌, ◌%◌, Bool, true, false, Option, none, some, List, [], ◌∷◌, ◌==◌, ◌&&◌,
  not, if◌then◌else◌,
}
use rtems_examples.Common.Lists.{length, set}

-- A line of filerdback: what was read, the total, and the characters that `%s` prints.
pub record ReadLine : Type 0 where
  pub n : ℕ
  pub total : ℕ
  pub text : List ℕ

-- The characters of a buffer in front of its first NUL.
pub c_string : List ℕ → List ℕ
c_string [] = []
c_string (c ∷ cs) = let rest = c_string cs in if c == 0 then [] else c ∷ rest

-- The loop on `read` of filerdback: each entry is what a call stores, of which the last octet is
-- overwritten by a NUL; a call that stores nothing ends the loop.
pub read_loop : ℕ → List (List ℕ) → List ReadLine
unfolding c_string
read_loop total [] = []
read_loop total (bufr2 ∷ reads) =
    let n = length bufr2 in
    let rest = read_loop (total + n) reads in
    if n == 0
    then []
    else record { n = n; total = total + n; text = c_string (set bufr2 (n - 1) 0) } ∷ rest

-- What the file system answers to a try of repeated_opens: `open` fails, or `write` returns a number.
pub data Try : Type 0 where
  open_fails : Try
  writes : ℕ → Try

-- The descriptors that are open, and the tries that reported a failure to open, a failure to write,
-- and a hundredth pass, the last one in front.
pub record Opens : Type 0 where
  pub open_count : ℕ
  pub open_failed : List ℕ
  pub write_failed : List ℕ
  pub passes : List ℕ

-- The loop of repeated_opens at try `i` with `rounds` left, where the `len` characters are written.
pub open_loop : ℕ → ℕ → ℕ → (ℕ → Try) → Opens → Opens
open_loop len zero i answers s = s
open_loop len (suc rounds) i answers s = elim (answers i) [
  | open_fails ↦ open_loop len rounds (i + 1) answers (record s { open_failed = i ∷ s.open_failed })
  | writes l ↦
      let passed =
        open_loop len rounds (i + 1) answers
          (record s { passes = if not (i == 0) && i % 100 == 0 then i ∷ s.passes else s.passes }) in
      if l == len
      then passed
      else record s { open_count = s.open_count + 1; write_failed = i ∷ s.write_failed }
]
