-- ===== src/FileIo/Readback.antt =====
-- file_io/filerdback/test.c: what the program prints of the file that it reads back.
use rtems_examples.Common.{ℕ, false, suc, ◌+◌, ◌-◌, ◌<◌, List, [], ◌∷◌, ◌==◌, ◌≡◌, ◌≢◌, refl, arith}
use rtems_examples.Common.Lists.{length, set, All}
use rtems_examples.FileIo.{ReadLine, c_string, read_loop}

-- A read that stored something, and no NUL.
unfoldable pub IsRead : List ℕ → Type 0
IsRead bufr2 = (0 < length bufr2) × All (λ c. c ≢ 0) bufr2

-- All but the last of some octets.
pub all_but_last : List ℕ → List ℕ
all_but_last [] = []
all_but_last (c ∷ []) = []
all_but_last (c ∷ d ∷ rest) = c ∷ all_but_last (d ∷ rest)

-- What should be printed: each read without its last octet, with the totals.
pub expected : ℕ → List (List ℕ) → List ReadLine
expected total [] = []
expected total (bufr2 ∷ reads) =
    record { n = length bufr2; total = total + length bufr2; text = all_but_last bufr2 }
    ∷ expected (total + length bufr2) reads

c_string-set :
    (c : ℕ) (cs : List ℕ)
    → All (λ d. d ≢ 0) (c ∷ cs)
    → c_string (set (c ∷ cs) (length cs) 0) ≡ all_but_last (c ∷ cs)
unfolding c_string all_but_last
c_string-set c [] k = refl
c_string-set c (d ∷ rest) k =
    let kept : (c == 0) ≡ false = ground arith in rw (kept, c_string-set d rest k.1) refl

c_string-last :
    (bufr2 : List ℕ) → IsRead bufr2 → c_string (set bufr2 (length bufr2 - 1) 0) ≡ all_but_last bufr2
unfolding IsRead
c_string-last [] h = absurd (omega arith)
c_string-last (c ∷ cs) h =
    let index : suc (length cs) - 1 ≡ length cs = omega arith in rw index (c_string-set c cs h.1)

-- Of a file without NUL each read is printed without its last octet, with the number of the octets
-- read and their total: one octet of the file is lost for each read.
pub read_loop-expected :
    (total : ℕ) (reads : List (List ℕ))
    → All IsRead reads
    → read_loop total reads ≡ expected total reads
unfolding read_loop expected IsRead
read_loop-expected total [] h = refl
read_loop-expected total (bufr2 ∷ reads) h =
    let some_read : (length bufr2 == 0) ≡ false = ground arith in
    rw (some_read, c_string-last bufr2 h.0, read_loop-expected (total + length bufr2) reads h.1)
      refl
