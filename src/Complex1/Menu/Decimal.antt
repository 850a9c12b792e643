-- ===== src/Complex1/Menu/Decimal.antt =====
-- A `strtol` for numbers without a sign, on which the models of the menus are run.
use rtems_examples.Common.{
  ℕ, ◌+◌, ◌-◌, ◌*◌, ◌≤◌, Bool, [], ◌∷◌, ◌++◌, ◌≡◌, refl, ap, arith, Bool-cases, inl, inr, leb, ◌&&◌,
  if◌then◌else◌,
}
use rtems_examples.Common.Int.{pos}
use rtems_examples.Complex1.Menu.{Line, Strtol, newline}
use rtems_examples.Complex1.Menu.Entry.{IsStrtol, EndsInDigit}

is_digit : ℕ → Bool
is_digit c = leb b'0' c && leb c b'9'

digits_from : ℕ → Line → ℕ × Line
unfolding is_digit
digits_from n [] = (n, [])
digits_from n (c ∷ cs) =
    let rest = digits_from (n * 10 + (c - b'0')) cs in if is_digit c then rest else (n, c ∷ cs)

unfoldable pub decimal : Strtol
unfolding digits_from
decimal line = let (n, rest) = digits_from 0 line in (pos n, rest)

EndsInDigit-cons :
    (c : ℕ) (taken : Line) → b'0' ≤ c → c ≤ b'9' → EndsInDigit taken → EndsInDigit (c ∷ taken)
unfolding EndsInDigit
EndsInDigit-cons c [] lo hi h = (lo, hi)
EndsInDigit-cons c (d ∷ taken) lo hi h = h

digits-taken :
    (n : ℕ) (line : Line)
    → (taken : Line) × (taken ++ (digits_from n line).1 ≡ line) × EndsInDigit taken
unfolding digits_from EndsInDigit is_digit
digits-taken n [] = ([], refl, tt)
digits-taken n (c ∷ cs) = elim (Bool-cases (is_digit c)) [
  | inl digit ↦
      let (taken, e, h) = digits-taken (n * 10 + (c - b'0')) cs in
      (
        c ∷ taken,
        rw (digits_from, digit) (ap (λ l. c ∷ l) e),
        EndsInDigit-cons c taken (ground arith) (ground arith) h,
      )
  | inr other ↦ ([], rw (digits_from, other) refl, tt)
]

pub decimal-IsStrtol : IsStrtol decimal
unfolding decimal IsStrtol
decimal-IsStrtol line = digits-taken 0 line

-- "7" and a line end.
abbrev pub digit_line : ℕ → Line
digit_line c = c ∷ newline ∷ []
