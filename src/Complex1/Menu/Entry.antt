-- ===== src/Complex1/Menu/Entry.antt =====
-- led/complex1/menu.cc: the number that the prompt for a bounded number returns, and the prompt for
-- any number.
use rtems_examples.Common.{
  ℕ, ◌≤◌, false, none, some, List, [], ◌∷◌, ◌++◌, ◌≡◌, refl, sym, ◌∙◌, ap, subst, inl, inr, arith,
  Bool-cases, if◌then◌else◌, ◌==◌, ◌||◌, Option-cases,
}
use rtems_examples.Common.Lists.{All}
use mathlib.Core.List.{map, append-nil}
use rtems_examples.Common.Int.{ℤ, ltb_int}
use rtems_examples.Complex1.Menu.{
  Line, Strtol, Ends, returned, waits, assert_failed, out_of_bounds, out_of_fuel, newline,
  bounded_entry, bounded_loop, get_int_bounded, get_int,
}

-- A line is accepted only for a number within the bounds.
abbrev pub InBounds : ℤ → ℤ → ℤ → Type 0
InBounds min max v = (ltb_int v min ≡ false) × (ltb_int max v ≡ false)

module _ (strtol : Strtol) where
  loop-skips :
      (min max : ℤ) (bad : List Line) (rest : List Line)
      → All (λ line. bounded_entry strtol min max line ≡ none) bad
      → bounded_loop strtol min max (bad ++ rest) ≡ bounded_loop strtol min max rest
  unfolding bounded_loop
  loop-skips min max [] rest h = refl
  loop-skips min max (line ∷ bad) rest h = rw (bounded_loop, h.0) (loop-skips min max bad rest h.1)

  checked-bounds :
      (min max v w : ℤ)
      → (if ltb_int v min || ltb_int max v then none else some v) ≡ some w
      → InBounds min max w
  checked-bounds min max v w e = ground arith

  entry-bounds :
      (min max : ℤ) (line : Line) (v : ℤ)
      → bounded_entry strtol min max line ≡ some v
      → InBounds min max v
  unfolding bounded_entry
  entry-bounds min max [] v e = absurd (cc)
  entry-bounds min max (c ∷ cs) v e = elim (Bool-cases (c == newline)) [
    | inl l ↦ ground arith
    | inr l ↦ ground arith
  ]

  -- What the prompt may answer on the lines typed: the number of the first line that is accepted, with
  -- the lines after it, or nothing while every line is refused.
  unfoldable pub Answers : ℤ → ℤ → List Line → Ends ℤ → Type 0
  Answers min max lines (returned v rest) =
      (bad : List Line) × (good : Line) × (lines ≡ bad ++ good ∷ rest)
      × All (λ line. bounded_entry strtol min max line ≡ none) bad
      × (bounded_entry strtol min max good ≡ some v)
      × InBounds min max v
  Answers min max lines waits = All (λ line. bounded_entry strtol min max line ≡ none) lines
  Answers min max lines assert_failed = ⊥
  Answers min max lines out_of_bounds = ⊥
  Answers min max lines out_of_fuel = ⊥

  Answers-cons :
      (min max : ℤ) (line : Line) (lines : List Line) (e : Ends ℤ)
      → bounded_entry strtol min max line ≡ none
      → Answers min max lines e
      → Answers min max (line ∷ lines) e
  unfolding Answers
  Answers-cons min max line lines (returned v rest) none_here
        (bad, good, e, refused, accepted, within) =
      (line ∷ bad, good, ap (λ xs. line ∷ xs) e, (none_here, refused), accepted, within)
  Answers-cons min max line lines waits none_here refused = (none_here, refused)
  Answers-cons min max line lines assert_failed none_here h = h
  Answers-cons min max line lines out_of_bounds none_here h = h
  Answers-cons min max line lines out_of_fuel none_here h = h

  loop-Answers :
      (min max : ℤ) (lines : List Line) → Answers min max lines (bounded_loop strtol min max lines)
  unfolding Answers bounded_loop
  loop-Answers min max [] = tt
  loop-Answers min max (line ∷ lines) = elim (Option-cases (bounded_entry strtol min max line)) [
    | inl refused ↦
        rw (bounded_loop, refused)
          (Answers-cons min max line lines (bounded_loop strtol min max lines) refused
            (loop-Answers min max lines))
    | inr (v, accepted) ↦
        rw (bounded_loop, accepted)
          ([], line, refl, tt, accepted, entry-bounds min max line v accepted)
  ]

  -- Between bounds that are in order, the prompt for a bounded number answers as soon as a line is
  -- typed that is accepted: it returns that line's number, which is within the bounds, and leaves
  -- the lines after it; while every line is refused it asks again.
  pub get_int_bounded-Answers :
      (min max : ℤ) (lines : List Line)
      → ltb_int max min ≡ false
      → Answers min max lines (get_int_bounded strtol min max lines)
  unfolding get_int_bounded
  get_int_bounded-Answers min max lines ordered = rw ordered (loop-Answers min max lines)

-- What the C library says of the part of a line that `strtol` takes: it ends in a digit, or is empty.
unfoldable pub EndsInDigit : Line → Type 0
EndsInDigit [] = Unit
EndsInDigit (c ∷ []) = (0x30 ≤ c) × (c ≤ 0x39)
EndsInDigit (c ∷ d ∷ rest) = EndsInDigit (d ∷ rest)

unfoldable pub IsStrtol : Strtol → Type 0
IsStrtol strtol =
    (line : Line) → (taken : Line) × (taken ++ (strtol line).1 ≡ line) × EndsInDigit taken

newline-¬EndsInDigit : (line : Line) → EndsInDigit (line ++ newline ∷ []) → ⊥
unfolding EndsInDigit
newline-¬EndsInDigit [] h = omega arith
newline-¬EndsInDigit (c ∷ []) h = omega arith
newline-¬EndsInDigit (c ∷ d ∷ rest) h = newline-¬EndsInDigit (d ∷ rest) h

-- Something is left of a line with a line end.
left_over :
    (line taken temp : Line)
    → taken ++ temp ≡ line ++ newline ∷ []
    → EndsInDigit taken
    → (t : ℕ) × (rest : Line) × (temp ≡ t ∷ rest)
left_over line taken [] e digit =
    absurd (newline-¬EndsInDigit line (subst EndsInDigit (sym (append-nil taken) ∙ e) digit))
left_over line taken (t ∷ rest) e digit = (t, rest, refl)

-- With `strtol` as the C library says, the prompt for a number never returns on lines that end in a
-- line end, whatever they hold.
pub get_int-waits :
    (strtol : Strtol) (lines : List Line)
    → IsStrtol strtol
    → get_int strtol (map (λ line. line ++ newline ∷ []) lines) ≡ waits
unfolding get_int IsStrtol
get_int-waits strtol [] contract = refl
get_int-waits strtol (line ∷ lines) contract =
    let (taken, e, digit) = contract (line ++ newline ∷ []) in
    let (t, rest, left) = left_over line taken (strtol (line ++ newline ∷ [])).1 e digit in
    rw (get_int, left) (get_int-waits strtol lines contract)
