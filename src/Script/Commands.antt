-- ===== src/Script/Commands.antt =====
-- schedsim/schedsim_priority/schedsim.cc: which commands of a script are run.
use rtems_examples.Common.{
  ℕ, zero, suc, ◌==◌, ltb, ap₂, arith, ◌||◌, Bool, true, false, Option, none, some, List, [], ◌∷◌,
  ◌++◌, ◌≡◌, refl, ap, ◌∙◌, ◌&&◌, not, if◌then◌else◌, Bool-cases, Option-cases, inl, inr,
}
use rtems_examples.Common.Lists.{length}
use rtems_examples.Script.{
  Line, strip_newline, is_comment, is_exit, same_text, Event, echoed, parse_error, unknown, ran,
  skip_blanks, run_line, process_script,
}

-- The calls of commands among the events.
pub commands : {A C : Type 0} → List (Event A C) → List (C × A)
commands [] = []
commands (echoed n line ∷ events) = commands events
commands (parse_error ∷ events) = commands events
commands (unknown line ∷ events) = commands events
commands (ran command argv ∷ events) = (command, argv) ∷ commands events

-- The descriptions of the parts of a line, each by itself and not by the loop of the program.
ends_in_newline : Line → Bool
ends_in_newline [] = false
ends_in_newline (c ∷ []) = c == 0x0a
ends_in_newline (c ∷ d ∷ rest) = ends_in_newline (d ∷ rest)

all_but_last : Line → Line
all_but_last [] = []
all_but_last (c ∷ []) = []
all_but_last (c ∷ d ∷ rest) = c ∷ all_but_last (d ∷ rest)

-- The line without the line end, if it has one.
text_of : Line → Line
unfolding ends_in_newline all_but_last
text_of line = let shorter = all_but_last line in if ends_in_newline line then shorter else line

agree : Line → Line → Bool
agree [] t = true
agree (c ∷ s) [] = true
agree (c ∷ s) (d ∷ t) = (c == d) && agree s t

-- Two texts of the same length that agree in every place.
equal_text : Line → Line → Bool
unfolding agree
equal_text s t = (length s == length t) && agree s t

-- A text that begins with the number sign.
marks_comment : Line → Bool
unfolding agree
marks_comment text = ltb 0 (length text) && agree text (0x23 ∷ [])

says_bye : Line → Bool
unfolding equal_text
says_bye text = equal_text text (0x62 ∷ 0x79 ∷ 0x65 ∷ [])

says_exit : Line → Bool
unfolding equal_text
says_exit text = equal_text text (0x65 ∷ 0x78 ∷ 0x69 ∷ 0x74 ∷ [])

strip_newline-text_of : (line : Line) → strip_newline line ≡ text_of line
unfolding strip_newline text_of ends_in_newline all_but_last
strip_newline-text_of [] = refl
strip_newline-text_of (c ∷ []) = refl
strip_newline-text_of (c ∷ d ∷ rest) = elim (Bool-cases (ends_in_newline (d ∷ rest))) [
  | inl e ↦ rw (strip_newline-text_of (d ∷ rest), text_of, e) refl
  | inr e ↦ rw (strip_newline-text_of (d ∷ rest), text_of, e) refl
]

same_text-equal_text : (s t : Line) → same_text s t ≡ equal_text s t
unfolding same_text equal_text agree
same_text-equal_text [] [] = refl
same_text-equal_text [] (d ∷ t) = ground arith
same_text-equal_text (c ∷ s) [] = ground arith
same_text-equal_text (c ∷ s) (d ∷ t) = ground (arith, same_text-equal_text s t)

is_comment-marks_comment : (text : Line) → is_comment text ≡ marks_comment text
unfolding is_comment marks_comment agree
is_comment-marks_comment [] = refl
is_comment-marks_comment (c ∷ []) = ground arith
is_comment-marks_comment (c ∷ d ∷ rest) = ground arith

is_exit-says : (text : Line) → is_exit text ≡ says_bye text || says_exit text
unfolding is_exit says_bye says_exit
is_exit-says text =
    ap₂ ◌||◌ (same_text-equal_text text (0x62 ∷ 0x79 ∷ 0x65 ∷ []))
      (same_text-equal_text text (0x65 ∷ 0x78 ∷ 0x69 ∷ 0x74 ∷ []))

module _ {A C : Type 0} (isblank : ℕ → Bool) (make_args : Line → Option A)
    (lookup_cmd : A → Option C) where
  -- How many blanks stand in front.
  blanks : Line → ℕ
  blanks [] = 0
  blanks (c ∷ rest) = let more = blanks rest in if isblank c then suc more else 0

  without_first : ℕ → Line → Line
  without_first zero line = line
  without_first (suc n) [] = []
  without_first (suc n) (c ∷ rest) = without_first n rest

  behind_blanks : Line → Line
  unfolding blanks without_first
  behind_blanks line = without_first (blanks line) line

  skip_blanks-behind_blanks :
      (line : Line) → skip_blanks isblank make_args lookup_cmd line ≡ behind_blanks line
  unfolding skip_blanks behind_blanks blanks without_first
  skip_blanks-behind_blanks [] = refl
  skip_blanks-behind_blanks (c ∷ rest) = elim (Bool-cases (isblank c)) [
    | inl e ↦ rw (e, skip_blanks-behind_blanks rest, behind_blanks) refl
    | inr e ↦ rw e refl
  ]

  -- A line that is no comment and has only "bye" or "exit" behind its blanks.
  ends_script : Line → Bool
  unfolding text_of behind_blanks says_bye says_exit marks_comment
  ends_script line =
      let text = behind_blanks (text_of line) in
      not (marks_comment (text_of line)) && (says_bye text || says_exit text)

  -- The lines before the first one that holds only "bye" or "exit" behind its blanks.
  pub until_exit : List Line → List Line
  unfolding ends_script
  until_exit [] = []
  until_exit (line ∷ script) =
      let rest = until_exit script in if ends_script line then [] else line ∷ rest

  -- The call that the text of a line asks for: none if it does not parse or the command is unknown.
  call_of : Line → List (C × A)
  call_of c = elim (make_args c) [
    | none ↦ []
    | some argv ↦ elim (lookup_cmd argv) [ none ↦ [] | some command ↦ (command, argv) ∷ [] ]
  ]

  line_command : Line → List (C × A)
  unfolding call_of text_of behind_blanks marks_comment
  line_command line =
      let called = call_of (behind_blanks (text_of line)) in
      if marks_comment (text_of line) then [] else called

  pub asked_commands : List Line → List (C × A)
  asked_commands [] = []
  asked_commands (line ∷ script) = line_command line ++ asked_commands script

  commands-run_line :
      (c : Line) (events : List (Event A C))
      → commands (run_line isblank make_args lookup_cmd c ∷ events) ≡ call_of c ++ commands events
  unfolding commands run_line call_of
  commands-run_line c events = elim (Option-cases (make_args c)) [
    | inl bad ↦ rw (run_line, call_of, bad) refl
    | inr (argv, parsed) ↦ elim (Option-cases (lookup_cmd argv)) [
      | inl missing ↦ rw (run_line, call_of, parsed, missing) refl
      | inr (command, found) ↦ rw (run_line, call_of, parsed, found) refl
    ]
  ]

  -- One line, before events that run what the other lines ask for.
  described_line :
      (line : Line) (events : List (Event A C)) (script : List Line)
      → commands events ≡ asked_commands script
      → let c = behind_blanks (text_of line) in
        commands (
          if marks_comment (text_of line)
          then events
          else if says_bye c || says_exit c
          then []
          else run_line isblank make_args lookup_cmd c ∷ events)
        ≡ asked_commands (if ends_script line then [] else line ∷ script)
  unfolding commands asked_commands ends_script line_command
  described_line line events script h =
      let c = behind_blanks (text_of line) in
      elim (Bool-cases (marks_comment (text_of line))) [
        | inl comment ↦ rw (comment, line_command, comment) h
        | inr text ↦ elim (Bool-cases (says_bye c || says_exit c)) [
          | inl exit ↦ rw (text, exit) refl
          | inr other ↦
              rw (text, other, line_command, text)
                (commands-run_line c events ∙ ap (λ l. call_of c ++ l) h)
        ]
      ]

  one_line :
      (line : Line) (events : List (Event A C)) (script : List Line)
      → commands events ≡ asked_commands script
      → let c = skip_blanks isblank make_args lookup_cmd (strip_newline line) in
        commands (
          if is_comment (strip_newline line)
          then events
          else if is_exit c
          then []
          else run_line isblank make_args lookup_cmd c ∷ events)
        ≡ asked_commands (if ends_script line then [] else line ∷ script)
  one_line line events script h =
      rw
        (
          strip_newline-text_of line,
          skip_blanks-behind_blanks (text_of line),
          is_comment-marks_comment (text_of line),
          is_exit-says (behind_blanks (text_of line)),
        )
        (described_line line events script h)

  -- Verbose or not, a script runs the commands that its lines ask for, in order, up to the first line
  -- that says "bye" or "exit", and none behind it; a line with an error runs nothing and the script
  -- goes on.
  pub process_script-asked :
      (verbose : Bool) (number : ℕ) (script : List Line)
      → commands (process_script isblank make_args lookup_cmd verbose number script)
        ≡ asked_commands (until_exit script)
  unfolding process_script commands until_exit asked_commands
  process_script-asked verbose number [] = refl
  process_script-asked true number (line ∷ script) =
      one_line line (process_script isblank make_args lookup_cmd true (suc number) script)
        (until_exit script) (process_script-asked true (suc number) script)
  process_script-asked false number (line ∷ script) =
      one_line line (process_script isblank make_args lookup_cmd false number script)
        (until_exit script) (process_script-asked false number script)
