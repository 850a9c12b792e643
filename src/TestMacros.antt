-- ===== src/TestMacros.antt =====
-- testmacros.h: the names of the kernel's objects on the terminal.
mod Names
mod Tests
use rtems_examples.Common.{
  ℕ, zero, suc, ◌+◌, ◌*◌, ◌/◌, ◌%◌, ◌^◌, ◌<◌, ◌≤◌, Bool, true, false, List, [], ◌∷◌, ◌++◌, ◌==◌,
  ◌≡◌, ◌≢◌, refl, ap, ◌∙◌, arith, if◌then◌else◌,
}
use rtems_examples.Common.Lists.{length, get_or, All}
use rtems_examples.Complex1.Periodic.{build_name}

-- `putchar` of a character that is not NUL.
pub put_unless_nul : ℕ → List ℕ → List ℕ
put_unless_nul c rest = if c == 0 then rest else c ∷ rest

-- The characters that `put_name` puts out; the first is put out whatever it is.
pub put_name : ℕ → Bool → List ℕ
unfolding put_unless_nul
put_name name crlf =
    let c0 = name / 2 ^ 24 % 256 in
    let c1 = name / 2 ^ 16 % 256 in
    let c2 = name / 2 ^ 8 % 256 in
    let c3 = name % 256 in
    c0 ∷ put_unless_nul c1 (put_unless_nul c2 (put_unless_nul c3 (if crlf then 0x0a ∷ [] else [])))
