-- ===== src/FileIo/Descriptors.antt =====
-- file_io/repeated_opens/test.c: the descriptors that stay open.
use rtems_examples.Common.{
  ℕ, not, ◌&&◌, ◌%◌, zero, suc, ◌+◌, ◌≤◌, ◌∷◌, ◌==◌, ◌≡◌, refl, arith, if◌then◌else◌, Bool-cases,
  inl, inr,
}
use rtems_examples.Common.Lists.{length}
use rtems_examples.FileIo.{Try, open_fails, writes, Opens, open_loop}

abbrev pub IsBalanced : Opens → Opens → Type 0
IsBalanced s t =
    (t.open_count + length s.write_failed ≡ s.open_count + length t.write_failed)
    × (t.open_count ≤ s.open_count + 1)

-- However often opening fails, at the end one more descriptor is open for each failure to write that
-- was reported, and there is at most one of these: a try that passes closes its descriptor.
pub open_loop-IsBalanced :
    (len rounds i : ℕ) (answers : ℕ → Try) (s : Opens)
    → IsBalanced s (open_loop len rounds i answers s)
unfolding open_loop
open_loop-IsBalanced len zero i answers s = (refl, omega arith)
open_loop-IsBalanced len (suc rounds) i answers s =
    by_try (answers i) refl (open_loop-IsBalanced len rounds (i + 1) answers)
  where
    by_try :
        (t : Try)
        → answers i ≡ t
        → ((u : Opens) → IsBalanced u (open_loop len rounds (i + 1) answers u))
        → IsBalanced s (open_loop len (suc rounds) i answers s)
    by_try open_fails e rest =
        rw (open_loop, e) (rest (record s { open_failed = i ∷ s.open_failed }))
    by_try (writes l) e rest = elim (Bool-cases (l == len)) [
      | inl same ↦
          rw (open_loop, e, same)
            (rest (record s {
              passes = if not (i == 0) && i % 100 == 0 then i ∷ s.passes else s.passes;
            }))
      | inr short ↦ rw (open_loop, e, short) (omega arith, omega arith)
    ]
