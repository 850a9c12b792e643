-- ===== src/Complex1/Program/Names.antt =====
-- led/complex1/test.cc: the comparison of names that does not tell the cases of letters apart.
use rtems_examples.Common.{
  ℕ, zero, suc, ◌-◌, ◌≤◌, ◌<◌, some, [], ◌∷◌, ◌≡◌, ◌≢◌, ◌↔◌, ◌⊎◌, refl, ◌∙◌, arith, inl, inr, ◌==◌,
  ltb, if◌then◌else◌,
}
use mathlib.Core.List.{map}
use rtems_examples.Common.Lists.{All}
use rtems_examples.Common.Int.{ℤ, pos, negsuc}
use rtems_examples.Complex1.Menu.{Line}
use rtems_examples.Complex1.Program.{Tolower, difference, last_difference, mystrcasecmp}

-- What the C library says of `tolower`: only the NUL has the small letter NUL, and a character of
-- ASCII is the same argument as a `char` and as an `unsigned char`.
pub record IsTolower (tolower : Tolower) : Type 0 where
  pub keeps_nul : (c : ℕ) → (tolower.of_unsigned_char c ≡ 0) ↔ (c ≡ 0)
  pub same_ascii : (c : ℕ) → c < 128 → tolower.of_char c ≡ tolower.of_unsigned_char c

-- The characters of a string of ASCII, which has no NUL before its end.
unfoldable pub IsString : Line → Type 0
IsString = All (λ c. (c ≢ 0) × (c < 128))

-- The sign that the comparison should have: that of the lexicographic order of the small letters.
pub order : Line → Line → ℤ
order [] [] = pos 0
order [] (d ∷ ds) = negsuc 0
order (c ∷ cs) [] = pos 1
order (c ∷ cs) (d ∷ ds) =
    let rest = order cs ds in if c == d then rest else if ltb c d then negsuc 0 else pos 1

pub sign : ℤ → ℤ
sign (pos zero) = pos 0
sign (pos (suc n)) = pos 1
sign (negsuc n) = negsuc 0

difference-less : (a b : ℕ) → a < b → sign (difference a b) ≡ negsuc 0
unfolding difference sign
difference-less a b h = ground arith

sign_above : (n : ℕ) → 0 < n → sign (pos n) ≡ pos 1
unfolding sign
sign_above zero h = absurd (omega arith)
sign_above (suc n) h = refl

difference-least : (a b : ℕ) → b ≤ a → difference a b ≡ pos (a - b)
unfolding difference
difference-least a b h = ground arith

difference-more : (a b : ℕ) → b < a → sign (difference a b) ≡ pos 1
difference-more a b h = rw (difference-least a b (omega arith)) (sign_above (a - b) (omega arith))

difference_self : (a : ℕ) → sign (difference a a) ≡ pos 0
unfolding sign
difference_self a =
    let zero_left : a - a ≡ 0 = omega arith in
    rw (difference-least a a (omega arith), zero_left) refl

three_cases : (a b : ℕ) → (a ≡ b) ⊎ ((a < b) ⊎ (b < a))
three_cases a b = ground arith

module _ (tolower : Tolower) (lib : IsTolower tolower) where
  abbrev lower : ℕ → ℕ
  lower = tolower.of_unsigned_char

  nul_end : lower 0 ≡ 0
  nul_end = (lib.keeps_nul 0).1 refl

  nul_char : tolower.of_char 0 ≡ 0
  nul_char = lib.same_ascii 0 (omega arith) ∙ nul_end

  large : (c : ℕ) → c ≢ 0 → 0 < lower c
  large c h = let not_nul : lower c ≢ 0 = λ e. h ((lib.keeps_nul c).0 e) in ground arith

  -- On strings of ASCII the comparison never goes on behind their ends, and the sign of what it
  -- returns is that of the lexicographic order of the small letters.
  pub mystrcasecmp-order :
      (s t : Line)
      → IsString s
      → IsString t
      → (v : ℤ) × (mystrcasecmp tolower s t ≡ some v)
        × (sign v ≡ order (map tolower.of_unsigned_char s) (map tolower.of_unsigned_char t))
  unfolding mystrcasecmp last_difference order IsString
  mystrcasecmp-order [] [] hs ht = (difference (lower 0) (lower 0), refl, difference_self (lower 0))
  mystrcasecmp-order [] (d ∷ t) hs ht =
      let more = large d ht.0.0 in
      (
        difference (lower 0) (lower d),
        refl,
        difference-less (lower 0) (lower d) (omega (arith, nul_end, more)),
      )
  mystrcasecmp-order (c ∷ s) [] hs ht =
      let more = large c hs.0.0 in
      let same = lib.same_ascii c hs.0.1 in
      (
        difference (lower c) (lower 0),
        ground (arith, nul_char, more, same),
        difference-more (lower c) (lower 0) (omega (arith, nul_end, more)),
      )
  mystrcasecmp-order (c ∷ s) (d ∷ t) hs ht =
      let (v, e, h) = mystrcasecmp-order s t hs.1 ht.1 in
      let same_c = lib.same_ascii c hs.0.1 in
      let same_d = lib.same_ascii d ht.0.1 in
      elim (three_cases (lower c) (lower d)) [
        | inl same ↦ (v, ground arith, ground arith)
        | inr (inl less) ↦ (
          difference (lower c) (lower d),
          ground arith,
          difference-less (lower c) (lower d) less ∙ ground arith,
        )
        | inr (inr more) ↦ (
          difference (lower c) (lower d),
          ground arith,
          difference-more (lower c) (lower d) more ∙ ground arith,
        )
      ]
