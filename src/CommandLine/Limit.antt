-- ===== src/CommandLine/Limit.antt =====
-- `parse_arguments` of misc/adamain/rtems_init.c as a whole: what it returns, and the limit of `argv`.
use rtems_examples.Common.{
  ℕ, zero, suc, ◌+◌, ◌≤◌, ◌<◌, ◌≡◌, refl, ◌-◌, sym, ◌∙◌, ap, arith, Bool, true, false, some, List,
  [], ◌∷◌, ◌++◌, leb, ltb, if◌then◌else◌, Bool-cases, inl, inr,
}
use rtems_examples.Common.Lists.{length, length-append, length-map}
use mathlib.Core.List.{append-nil, append_assoc}
use rtems_examples.CommandLine.{
  command_line_maximum, fgets_line, fgets_calls, Arg, arg0, offset, most_arguments, Scan, scan,
  chop, parse_loop, parse_arguments, string_at,
}
use rtems_examples.CommandLine.Words.{
  words, IsText, Finds, words_nil, words_space, words_inside, words_begin, scan-Finds,
}

abbrev argv_of : Scan → List Arg
argv_of s = s.argv

fits :
    (room : ℕ) (stored rest : List ℕ)
    → 0 < length (stored ++ rest)
    → length rest ≤ room
    → fgets_line room stored rest ≡ (stored ++ rest) ∷ []
unfolding fgets_line
fits room [] [] some_text h = absurd (omega (arith, some_text))
fits room (s ∷ stored) [] some_text h = ap (λ l. l ∷ []) (sym (append-nil (s ∷ stored)))
fits zero stored (c ∷ rest) some_text h = absurd (omega (arith, h))
fits (suc room) stored (c ∷ rest) some_text h =
    fits room (stored ++ c ∷ []) rest
      (omega (arith, length-append (stored ++ c ∷ []) rest, length-append stored (c ∷ [])))
      (omega (arith, h))
    ∙ ap (λ l. l ∷ []) (append_assoc stored (c ∷ []) rest)

-- A line that fits into the buffer is what one call of `fgets` stores.
fgets_calls-line :
    (line : List ℕ) (lines : List (List ℕ))
    → 0 < length line
    → length line < command_line_maximum
    → fgets_calls (line ∷ lines) ≡ line ∷ fgets_calls lines
unfolding fgets_calls
fgets_calls-line line lines some_text h =
    ap (λ l. l ++ fgets_calls lines)
      (fits (command_line_maximum - 1) [] line some_text (omega (arith, h)))

module _ (is_space : ℕ → Bool) where
  -- A line with a word in it is not empty.
  words-length : (line : List ℕ) → 0 < length (words is_space false (chop line)) → 0 < length line
  unfolding chop
  words-length [] h = absurd (omega (arith, h, ap length (words_nil is_space false)))
  words-length (c ∷ line) h = omega arith

  scan-argv-le :
      (in_word : Bool) (cp : ℕ) (argv : List Arg) (rest : List ℕ)
      → length argv ≤ most_arguments
      → length (argv_of (scan is_space in_word cp argv rest)) ≤ most_arguments
  unfolding scan
  scan-argv-le true cp argv [] h = h
  scan-argv-le false cp argv [] h = h
  scan-argv-le true cp argv (c ∷ rest) h =
      ground (arith, scan-argv-le true (cp + 1) argv rest, scan-argv-le false (cp + 1) argv rest)
  scan-argv-le false cp argv (c ∷ rest) h = ground (
    arith,
    scan-argv-le false (cp + 1) argv rest,
    scan-argv-le true (cp + 1) (argv ++ offset cp ∷ []) rest,
    length-append argv (offset cp ∷ []),
  )

  -- With more words than places, no argument is left.
  scan-too-many :
      (in_word : Bool) (cp : ℕ) (argv : List Arg) (rest : List ℕ)
      → length argv ≤ most_arguments
      → most_arguments < length argv + length (words is_space in_word rest)
      → argv_of (scan is_space in_word cp argv rest) ≡ []
  unfolding scan
  scan-too-many true cp argv [] h m = absurd (omega (arith, ap length (words_nil is_space true)))
  scan-too-many false cp argv [] h m = absurd (omega (arith, ap length (words_nil is_space false)))
  scan-too-many true cp argv (c ∷ rest) h m = elim (Bool-cases (is_space c)) [
    | inl e ↦ rw e (
        scan-too-many false (cp + 1) argv rest h
          (omega (arith, ap length (words_space is_space true c rest e))))
    | inr e ↦ rw e (
        scan-too-many true (cp + 1) argv rest h
          (omega (arith, ap length (words_inside is_space c rest e))))
  ]
  scan-too-many false cp argv (c ∷ rest) h m = elim (Bool-cases (is_space c)) [
    | inl e ↦ rw e (
        scan-too-many false (cp + 1) argv rest h
          (omega (arith, ap length (words_space is_space false c rest e))))
    | inr e ↦ elim (Bool-cases (leb most_arguments (length argv))) [
      | inl full ↦ rw (e, full) refl
      | inr room ↦
          let grown = length-append argv (offset cp ∷ []) in
          let free : length argv < most_arguments = ground arith in
          rw (e, room)
            (scan-too-many true (cp + 1) (argv ++ offset cp ∷ []) rest (omega (arith, grown))
              (omega (arith, grown, ap length (words_begin is_space c rest e))))
    ]
  ]

  parse_loop_bounds :
      (lines : List (List ℕ)) (argv : List Arg) (s : Scan)
      → length argv ≤ most_arguments
      → parse_loop is_space lines argv ≡ some s
      → (2 ≤ length s.argv) × (length s.argv ≤ most_arguments)
  unfolding parse_loop
  parse_loop_bounds [] argv s h e = cc
  parse_loop_bounds (line ∷ lines) argv s h e =
      let found = scan is_space false 0 argv (chop line) in
      let le = scan-argv-le false 0 argv (chop line) h in
      elim (Bool-cases (ltb 1 (length found.argv))) [
        | inl more ↦ ground (arith, e)
        | inr few ↦ parse_loop_bounds lines found.argv s le (rw few at e)
      ]

  -- Whatever lines are typed, the program gets at least one argument behind its name, and with the
  -- NULL behind them the arguments fit into the twenty entries of `argv`.
  pub parse_arguments_bounds :
      (lines : List (List ℕ)) (s : Scan)
      → parse_arguments is_space lines ≡ some s
      → (2 ≤ length s.argv) × (length s.argv ≤ most_arguments)
  unfolding parse_arguments
  parse_arguments_bounds lines s e =
      parse_loop_bounds (fgets_calls lines) (arg0 ∷ []) s (omega arith) e

  ends :
      (line : List ℕ) (lines : List (List ℕ)) {s : Scan}
      → Finds is_space false 0 (arg0 ∷ []) (chop line) s
      → 0 < length (words is_space false (chop line))
      → (if ltb 1 (length s.argv) then some s else parse_loop is_space lines s.argv) ≡ some s
  ends line lines {s} found h =
      let n = length-map found.places (λ k. offset (0 + k)) in
      let p = length-map found.places (string_at s.buffer) in
      let m = ap length found.added in let w = ap length found.strings in ground (arith, n, p, m, w)

  -- When the first line fits into the buffer with its line end and a NUL, and has at least one word
  -- and at most eighteen, and no NUL, the loop ends with it; `argv` then is the program's name followed
  -- by one address for each word, in order, and the C strings at these addresses are the words.
  pub parse_arguments-words :
      (line : List ℕ) (lines : List (List ℕ))
      → length line < command_line_maximum
      → IsText is_space (chop line)
      → 0 < length (words is_space false (chop line))
      → length (words is_space false (chop line)) < most_arguments
      → (s : Scan) × (parse_arguments is_space (line ∷ lines) ≡ some s)
        × Finds is_space false 0 (arg0 ∷ []) (chop line) s
  unfolding parse_arguments parse_loop
  parse_arguments-words line lines fit t some_words few =
      let found = scan-Finds is_space false 0 (arg0 ∷ []) (chop line) t (omega arith) in
      let read = fgets_calls-line line lines (words-length line some_words) fit in
      (
        _,
        ap (λ l. parse_loop is_space l (arg0 ∷ [])) read
            ∙ ends line (fgets_calls lines) found some_words,
        found,
      )

  -- After a first line that fits into the buffer and has nineteen words or more, the arguments are those that the next line gives
  -- with an empty `argv`: the name of the program, which stood in front, is lost.
  pub parse_arguments-too-many :
      (line : List ℕ) (lines : List (List ℕ))
      → length line < command_line_maximum
      → most_arguments ≤ length (words is_space false (chop line))
      → parse_arguments is_space (line ∷ lines) ≡ parse_loop is_space (fgets_calls lines) []
  unfolding parse_arguments parse_loop
  parse_arguments-too-many line lines fit h = rw (
    fgets_calls-line line lines (words-length line (omega arith)) fit,
    parse_loop,
    scan-too-many false 0 (arg0 ∷ []) (chop line) (omega arith) (omega arith),
  )
