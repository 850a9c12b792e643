-- ===== src/CommandLine.antt =====
-- misc/adamain/rtems_init.c: `parse_arguments`, which breaks a line typed at the prompt into the
-- arguments of the Ada program, in the variant that reads standard input.
-- A C string is the list of its characters, without the NUL; `isspace` of the C library is an
-- argument.
pub mod Words
pub mod Limit
pub mod Program
mod Tests
use rtems_examples.Common.{
  ℕ, zero, suc, ◌+◌, ◌-◌, Bool, true, false, Option, none, some, List, [], ◌∷◌, ◌++◌, ◌==◌, ◌||◌,
  leb, ltb, if◌then◌else◌,
}
use rtems_examples.Common.Lists.{length}

-- An entry of `argv`: the array `arg0`, or an address in `linebuf` by its offset.
pub data Arg : Type 0 where
  arg0 : Arg
  offset : ℕ → Arg

-- The last entry of `argv` is kept for the NULL behind the arguments.
abbrev pub most_arguments : ℕ
most_arguments = 19

-- `argv` up to `argc`, and what the loop leaves in the buffer from `cp` on.
pub record Scan : Type 0 where
  pub argv : List Arg
  pub buffer : List ℕ

abbrev pub written : ℕ → Scan → Scan
written c s = record { argv = s.argv; buffer = c ∷ s.buffer }

-- The size of the buffer for a line.
abbrev pub command_line_maximum : ℕ
command_line_maximum = 200

-- What the calls of `fgets` store of a line, with its line end, when `stored` is in the buffer and
-- `room` characters fit behind it: a longer line is read in pieces.
pub fgets_line : (room : ℕ) → (stored : List ℕ) → List ℕ → List (List ℕ)
fgets_line room [] [] = []
fgets_line room (s ∷ stored) [] = (s ∷ stored) ∷ []
fgets_line zero stored (c ∷ rest) = stored ∷ fgets_line (command_line_maximum - 2) (c ∷ []) rest
fgets_line (suc room) stored (c ∷ rest) = fgets_line room (stored ++ c ∷ []) rest

pub fgets_calls : List (List ℕ) → List (List ℕ)
unfolding fgets_line
fgets_calls [] = []
fgets_calls (line ∷ lines) = fgets_line (command_line_maximum - 1) [] line ++ fgets_calls lines

-- The line end behind what `fgets` stored is cut off.
pub chop : List ℕ → List ℕ
chop [] = []
chop (c ∷ []) = if c == 0x0a || c == 0x0d then [] else c ∷ []
chop (c ∷ d ∷ line) = c ∷ chop (d ∷ line)

module _ (is_space : ℕ → Bool) where
  -- The inner `for`, at offset `cp` with `rest` in front of it; `in_word` is the second `while`.
  pub scan : (in_word : Bool) → ℕ → List Arg → List ℕ → Scan
  scan in_word cp argv [] = record { argv = argv; buffer = [] }
  scan true cp argv (c ∷ rest) =
      let more = scan true (cp + 1) argv rest in
      let blank = scan false (cp + 1) argv rest in
      if is_space c then written 0 blank else written c more
  scan false cp argv (c ∷ rest) =
      let blank = scan false (cp + 1) argv rest in
      let word = scan true (cp + 1) (argv ++ offset cp ∷ []) rest in
      if is_space c
      then written 0 blank
      else if leb most_arguments (length argv)
      then record { argv = []; buffer = c ∷ rest }
      else written c word

  -- The outer `for` on what the calls of `fgets` store; `none` where standard input has no more.
  pub parse_loop : List (List ℕ) → List Arg → Option Scan
  parse_loop [] argv = none
  parse_loop (line ∷ lines) argv =
      let s = scan false 0 argv (chop line) in
      let again = parse_loop lines s.argv in if ltb 1 (length s.argv) then some s else again

  -- On the lines that are typed.
  pub parse_arguments : List (List ℕ) → Option Scan
  unfolding scan chop fgets_calls parse_loop
  parse_arguments lines = parse_loop (fgets_calls lines) (arg0 ∷ [])

-- The C string at an address: the characters up to the first NUL.
pub until_nul : List ℕ → List ℕ
until_nul [] = []
until_nul (zero ∷ cs) = []
until_nul (suc c ∷ cs) = suc c ∷ until_nul cs

pub string_at : List ℕ → ℕ → List ℕ
unfolding until_nul
string_at [] p = []
string_at (c ∷ cs) zero = until_nul (c ∷ cs)
string_at (c ∷ cs) (suc p) = string_at cs p
