-- ===== src/Script.antt =====
-- schedsim/schedsim_priority/schedsim.cc: the script that drives the simulator of schedulers.
-- A line is what `fgets` stores, which is never empty. The shell's parser and table of commands are
-- arguments, `none` where the first returns an error and the second NULL; a command only leaves the
-- record of its call.
mod Commands
mod Tests
use rtems_examples.Common.{
  ℕ, zero, suc, ◌+◌, Bool, true, false, Option, none, some, List, [], ◌∷◌, ◌==◌, ◌&&◌, ◌||◌,
  if◌then◌else◌,
}

abbrev pub Line : Type 0
Line = List ℕ

-- The line end that is overwritten by a NUL.
pub strip_newline : Line → Line
strip_newline [] = []
strip_newline (c ∷ []) = if c == 0x0a then [] else c ∷ []
strip_newline (c ∷ d ∷ rest) = c ∷ strip_newline (d ∷ rest)

-- `strcmp` gives 0.
pub same_text : Line → Line → Bool
same_text [] [] = true
same_text [] (d ∷ t) = false
same_text (c ∷ s) [] = false
same_text (c ∷ s) (d ∷ t) = (c == d) && same_text s t

pub is_comment : Line → Bool
is_comment [] = false
is_comment (c ∷ rest) = c == b'#'

pub is_exit : Line → Bool
unfolding same_text
is_exit c = same_text c (b'b' ∷ b'y' ∷ b'e' ∷ []) || same_text c (b'e' ∷ b'x' ∷ b'i' ∷ b't' ∷ [])

-- What a line leaves on stderr or calls: its echo with `ScriptFileLine`, the two messages of errors,
-- and the command with its arguments.
pub data Event (A C : Type 0) : Type 0 where
  echoed : ℕ → Line → Event A C
  parse_error : Event A C
  unknown : Line → Event A C
  ran : C → A → Event A C

module _ {A C : Type 0} (isblank : ℕ → Bool) (make_args : Line → Option A)
    (lookup_cmd : A → Option C) where
  pub skip_blanks : Line → Line
  skip_blanks [] = []
  skip_blanks (c ∷ rest) = let skipped = skip_blanks rest in if isblank c then skipped else c ∷ rest

  -- The body of the loop behind the test for an exit, on the line from its first character that is
  -- not blank.
  pub run_line : Line → Event A C
  run_line c = elim (make_args c) [
    | none ↦ parse_error
    | some argv ↦ elim (lookup_cmd argv) [ none ↦ unknown c | some command ↦ ran command argv ]
  ]

  -- `ProcessScript` from a value of `ScriptFileLine` on.
  pub process_script : Bool → ℕ → List Line → List (Event A C)
  unfolding strip_newline is_comment is_exit skip_blanks run_line
  process_script verbose number [] = []
  process_script verbose number (line ∷ script) =
      let buffer = strip_newline line in
      let c = skip_blanks buffer in
      let next = if verbose then suc number else number in
      let rest = process_script verbose next script in
      let events =
        if is_comment buffer then rest else if is_exit c then [] else run_line c ∷ rest in
      if verbose then echoed next buffer ∷ events else events
