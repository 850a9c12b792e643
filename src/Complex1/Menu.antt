-- ===== src/Complex1/Menu.antt =====
-- led/complex1/menu.cc: entries typed at a prompt, and menus made of them.
-- A line is what one call of `fgets` stores, without its NUL; the lines that will be typed are a list,
-- and at its end the program waits. `strtol` of the C library, in base 10, is an argument: it gives the
-- number, which an `int` holds as on targets whose `long` has 32 bits, and what is left of the line.
-- The prompts are left out.
pub mod Entry
pub mod Choice
pub mod Decimal
mod Tests
use rtems_examples.Common.{
  ℕ, zero, suc, ◌+◌, ◌-◌, Bool, true, false, Option, none, some, List, [], ◌∷◌, ◌==◌, ◌||◌, not,
  if◌then◌else◌,
}
use rtems_examples.Common.Lists.{length, get_elem?}
use rtems_examples.Common.Int.{ℤ, pos, negsuc, ltb_int}

abbrev pub Line : Type 0
Line = List ℕ

abbrev pub Strtol : Type 0
Strtol = Line → ℤ × Line

abbrev pub newline : ℕ
newline = 0x0a

-- How a function of the menus ends, with the lines that it has not read.
pub data Ends {ℓ} (A : Type ℓ) : Type ℓ where
  returned : A → List Line → Ends A
  waits : Ends A
  assert_failed : Ends A
  -- An element beyond the entries of a menu is used.
  out_of_bounds : Ends A
  -- The model's bound on the rounds of a menu is used up.
  out_of_fuel : Ends A

-- A call and what follows it.
unfoldable pub and_then {ℓ κ} :
    {A : Type ℓ} {B : Type κ} → Ends A → (A → List Line → Ends B) → Ends B
and_then (returned a rest) next = next a rest
and_then waits next = waits
and_then assert_failed next = assert_failed
and_then out_of_bounds next = out_of_bounds
and_then out_of_fuel next = out_of_fuel

-- `Test_menu_run` on the entries of a menu, each with its effect on the program's state. The fuel
-- bounds the rounds of all menus together.
abbrev pub Routine {ℓ} : Type ℓ → Type ℓ
Routine S = S → List Line → Ends S

module _ (strtol : Strtol) where
  -- What the loop of `Test_menu_Get_int_bounded` makes of a line.
  unfoldable pub bounded_entry : ℤ → ℤ → Line → Option ℤ
  bounded_entry min max [] = none
  bounded_entry min max (c ∷ cs) =
      let (selection, temp) = strtol (c ∷ cs) in
      let checked =
        if ltb_int selection min || ltb_int max selection then none else some selection in
      if c == newline then none else elim temp [
        | [] ↦ checked
        | t ∷ rest ↦ if t == newline || t == 0x0d then checked else none
      ]

  pub bounded_loop : ℤ → ℤ → List Line → Ends ℤ
  bounded_loop min max [] = waits
  bounded_loop min max (line ∷ lines) = elim (bounded_entry min max line) [
    | some selection ↦ returned selection lines
    | none ↦ bounded_loop min max lines
  ]

  unfoldable pub get_int_bounded : ℤ → ℤ → List Line → Ends ℤ
  unfolding bounded_loop
  get_int_bounded min max lines =
      if ltb_int max min then assert_failed else bounded_loop min max lines

  -- `Test_menu_Get_int`
  pub get_int : List Line → Ends ℤ
  get_int [] = waits
  get_int (line ∷ lines) =
      let (selection, temp) = strtol line in
      let again = get_int lines in elim temp [ [] ↦ returned selection lines | t ∷ rest ↦ again ]

  -- `Test_menu_Get_selection` on `count` names.
  pub get_selection : ℕ → List Line → Ends ℤ
  unfolding get_int_bounded
  get_selection count lines =
      get_int_bounded (pos 0) (elim count [ zero ↦ negsuc 0 | suc last ↦ pos last ]) lines

  module _ {ℓ} {S : Type ℓ} where
    -- A choice of `Test_menu_run`: 0 leaves the menu, and any other calls its routine.
    pub choose : List (Routine S) → ℤ → S → List Line → Option (Ends S)
    choose entry (pos zero) s lines = none
    choose entry (pos (suc i)) s lines = elim (get_elem? entry i) [
      | none ↦ some out_of_bounds
      | some routine ↦ some (routine s lines)
    ]
    choose entry (negsuc i) s lines = some out_of_bounds

    unfoldable pub menu_run : ℕ → List (Routine S) → Routine S
    unfolding get_int_bounded choose and_then
    menu_run zero entry s lines = out_of_fuel
    menu_run (suc fuel) entry s lines =
        and_then (get_int_bounded (pos 0) (pos (length entry)) lines) (λ selection rest.
          elim (choose entry selection s rest) [
            | none ↦ returned s rest
            | some e ↦ and_then e (λ t later. menu_run fuel entry t later)
          ])

-- The NUL that `Test_menu_Get_string` stores in place of the line end.
pub cut_line_end : Line → Line
cut_line_end [] = []
cut_line_end (c ∷ []) = if c == newline then [] else c ∷ []
cut_line_end (c ∷ d ∷ rest) = c ∷ cut_line_end (d ∷ rest)

-- `Test_menu_Get_string`: the line without its line end. It reads the character before an empty line.
pub get_string : List Line → Ends Line
unfolding cut_line_end
get_string [] = waits
get_string ([] ∷ lines) = out_of_bounds
get_string ((c ∷ cs) ∷ lines) = returned (cut_line_end (c ∷ cs)) lines
