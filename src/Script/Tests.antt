-- ===== src/Script/Tests.antt =====
-- A run of schedsim/schedsim_priority/schedsim.cc on a short script, where the parser of the shell
-- takes every line and the commands are those that begin with `r`.
use rtems_examples.Common.{
  ℕ, Bool, true, false, Option, none, some, List, [], ◌∷◌, ◌≡◌, refl, ◌==◌, if◌then◌else◌,
}
use rtems_examples.Script.{Line, unknown, ran, process_script}
use rtems_examples.Script.Commands.{commands, asked_commands, until_exit, process_script-asked}

is_blank : ℕ → Bool
is_blank c = c == b' '

whole_line : Line → Option Line
whole_line line = some line

lookup : Line → Option ℕ
lookup [] = none
lookup (c ∷ rest) = if c == b'r' then some 1 else none

-- A comment, a command behind a blank, an unknown command, "bye", and a command behind it.
short_script : List Line
short_script =
    (b'#' ∷ b'r' ∷ 0x0a ∷ [])
    ∷ (b' ' ∷ b'r' ∷ 0x0a ∷ [])
    ∷ (b'x' ∷ 0x0a ∷ [])
    ∷ (b' ' ∷ b'b' ∷ b'y' ∷ b'e' ∷ 0x0a ∷ [])
    ∷ (b'r' ∷ [])
    ∷ []

process_script_test :
    process_script is_blank whole_line lookup false 0 short_script
    ≡ ran 1 (b'r' ∷ []) ∷ unknown (b'x' ∷ []) ∷ []
unfolding process_script is_blank whole_line lookup short_script
process_script_test = refl

process_script-asked_example :
    commands (process_script is_blank whole_line lookup true 0 short_script)
    ≡ asked_commands is_blank whole_line lookup (until_exit is_blank whole_line lookup short_script)
process_script-asked_example = process_script-asked is_blank whole_line lookup true 0 short_script
