-- ===== src/Complex1/Menu/Choice.antt =====
-- led/complex1/menu.cc: `Test_menu_run` on routines that keep an invariant of the program's state.
use rtems_examples.Common.{
  ℕ, zero, suc, ◌≤◌, ◌<◌, false, none, some, List, [], ◌∷◌, ◌++◌, ◌≡◌, refl, arith,
}
use rtems_examples.Common.Lists.{length, length-append, get_elem?, All}
use rtems_examples.Common.Int.{ℤ, pos, negsuc, ltb_int}
use rtems_examples.Complex1.Menu.{
  Line, Strtol, Ends, returned, waits, assert_failed, out_of_bounds, out_of_fuel, Routine,
  get_int_bounded, choose, menu_run, and_then, get_selection, get_int_bounded,
}
use rtems_examples.Complex1.Menu.Entry.{Answers, get_int_bounded-Answers, InBounds}

module _ {S : Type 0} (I : S → Type 0) where
  -- A call that waits for a line, or returns with the condition met and fewer than `n` lines left:
  -- it neither fails an assertion nor leaves an array nor runs out of fuel.
  unfoldable pub IsCalm : ℕ → Ends S → Type 0
  IsCalm n (returned t rest) = I t × (length rest < n)
  IsCalm n waits = Unit
  IsCalm n assert_failed = ⊥
  IsCalm n out_of_bounds = ⊥
  IsCalm n out_of_fuel = ⊥

  -- A routine that keeps an invariant on fewer than `n` lines.
  unfoldable pub IsCalmRoutine : ℕ → Routine S → Type 0
  IsCalmRoutine n routine =
      (s : S) (lines : List Line)
      → I s
      → length lines < n
      → IsCalm (suc (length lines)) (routine s lines)

  pub IsCalm-le : (m n : ℕ) (e : Ends S) → m ≤ n → IsCalm m e → IsCalm n e
  unfolding IsCalm
  IsCalm-le m n (returned t rest) h (kept, fewer) = (kept, omega arith)
  IsCalm-le m n waits h k = k
  IsCalm-le m n assert_failed h k = k
  IsCalm-le m n out_of_bounds h k = k
  IsCalm-le m n out_of_fuel h k = k

pub IsCalm-and_then :
    {A B : Type 0} (I : A → Type 0) (J : B → Type 0) (m n : ℕ) (e : Ends A)
    (next : A → List Line → Ends B)
    → IsCalm I m e
    → ((a : A) (rest : List Line) → I a → length rest < m → IsCalm J n (next a rest))
    → IsCalm J n (and_then e next)
unfolding IsCalm and_then
IsCalm-and_then I J m n (returned a rest) next (h, fewer) k = k a rest h fewer
IsCalm-and_then I J m n waits next h k = tt
IsCalm-and_then I J m n assert_failed next h k = h
IsCalm-and_then I J m n out_of_bounds next h k = h
IsCalm-and_then I J m n out_of_fuel next h k = h

fewer_left :
    (lines bad : List Line) (good : Line) (rest : List Line)
    → lines ≡ bad ++ good ∷ rest
    → length rest < length lines
fewer_left lines bad good rest e = rw (e, length-append bad (good ∷ rest)) (omega arith)

Answers-IsCalm :
    (strtol : Strtol) (min max : ℤ) (lines : List Line) (e : Ends ℤ)
    → Answers strtol min max lines e
    → IsCalm (InBounds min max) (length lines) e
unfolding IsCalm Answers
Answers-IsCalm strtol min max lines (returned v rest) (bad, good, e, refused, accepted, within) =
    (within, fewer_left lines bad good rest e)
Answers-IsCalm strtol min max lines waits h = tt
Answers-IsCalm strtol min max lines assert_failed h = h
Answers-IsCalm strtol min max lines out_of_bounds h = h
Answers-IsCalm strtol min max lines out_of_fuel h = h

-- The prompt for a bounded number is calm, and uses up a line.
pub get_int_bounded-IsCalm :
    (strtol : Strtol) (min max : ℤ) (lines : List Line)
    → ltb_int max min ≡ false
    → IsCalm (InBounds min max) (length lines) (get_int_bounded strtol min max lines)
get_int_bounded-IsCalm strtol min max lines ordered =
    Answers-IsCalm strtol min max lines (get_int_bounded strtol min max lines)
      (get_int_bounded-Answers strtol min max lines ordered)

pub get_selection-IsCalm :
    (strtol : Strtol) (last : ℕ) (lines : List Line)
    → IsCalm (InBounds (pos 0) (pos last)) (length lines) (get_selection strtol (suc last) lines)
unfolding get_selection
get_selection-IsCalm strtol last lines =
    get_int_bounded-IsCalm strtol (pos 0) (pos last) lines (ground arith)

-- A choice from no names fails the assertion on the bounds.
pub get_selection-zero :
    {A : Type 0} (strtol : Strtol) (lines : List Line) (next : ℤ → List Line → Ends A)
    → and_then (get_selection strtol 0 lines) next ≡ assert_failed
unfolding get_selection get_int_bounded and_then
get_selection-zero strtol lines next = refl

pub name_found :
    {A : Type 0} (names : List A) (i : ℕ)
    → i < length names
    → (name : A) × (get_elem? names i ≡ some name)
name_found [] i h = absurd (omega arith)
name_found (name ∷ names) zero h = (name, refl)
name_found (name ∷ names) (suc i) h = name_found names i (omega arith)

-- A number below the length of a list stands for an element of it.
pub entry_found :
    {A : Type 0} (entry : List A) (P : A → Type 0) (i : ℕ)
    → i < length entry
    → All P entry
    → (a : A) × (get_elem? entry i ≡ some a) × P a
entry_found [] P i h k = absurd (omega arith)
entry_found (a ∷ entry) P zero h k = (a, refl, k.0)
entry_found (a ∷ entry) P (suc i) h k = entry_found entry P i (omega arith) k.1

module _ {S : Type 0} (I : S → Type 0) (strtol : Strtol) (entry : List (Routine S)) (bound : ℕ)
    (calm : All (IsCalmRoutine I bound) entry) where
  chosen-IsCalm :
      (next : S → List Line → Ends S) (v : ℤ) (s : S) (rest : List Line) (n : ℕ)
      → I s
      → InBounds (pos 0) (pos (length entry)) v
      → length rest < n
      → length rest < bound
      → ((t : S) (later : List Line) → I t → length later ≤ length rest → IsCalm I n (next t later))
      → IsCalm I n (elim (choose strtol entry v s rest) [
        | none ↦ returned s rest
        | some e ↦ and_then e next
      ])
  unfolding choose IsCalmRoutine IsCalm
  chosen-IsCalm next (pos zero) s rest n inv within fewer few k = (inv, fewer)
  chosen-IsCalm next (pos (suc i)) s rest n inv within fewer few k =
      let (routine, e, calm_here) =
        entry_found entry (IsCalmRoutine I bound) i (ground arith) calm in
      rw e (
        IsCalm-and_then I I (suc (length rest)) n (routine s rest) next (calm_here s rest inv few)
          (λ t later kept less. k t later kept (omega arith)))
  chosen-IsCalm next (negsuc i) s rest n inv within fewer few k = absurd (ground arith)

  -- A menu whose routines keep an invariant keeps it, and with fuel for each line that is typed it
  -- always comes to a line that it waits for or returns.
  pub menu_run-IsCalm :
      (fuel : ℕ) (s : S) (lines : List Line)
      → I s
      → length lines < fuel
      → length lines < bound
      → IsCalm I (suc (length lines)) (menu_run strtol fuel entry s lines)
  unfolding menu_run
  menu_run-IsCalm zero s lines inv h few = absurd (omega arith)
  menu_run-IsCalm (suc fuel) s lines inv h few =
      IsCalm-and_then (InBounds (pos 0) (pos (length entry))) I (length lines) (suc (length lines))
        (get_int_bounded strtol (pos 0) (pos (length entry)) lines)
        (λ selection rest. elim (choose strtol entry selection s rest) [
          | none ↦ returned s rest
          | some e ↦ and_then e (λ t later. menu_run strtol fuel entry t later)
        ])
        (get_int_bounded-IsCalm strtol (pos 0) (pos (length entry)) lines (ground arith))
        (λ v rest within fewer.
          chosen-IsCalm (λ t later. menu_run strtol fuel entry t later) v s rest
            (suc (length lines)) inv within (omega arith) (omega arith)
            (λ t later kept less.
              IsCalm-le I (suc (length later)) (suc (length lines))
                (menu_run strtol fuel entry t later) (omega arith)
                (menu_run-IsCalm fuel t later kept (omega arith) (omega arith))))
