-- ===== src/CommandLine/Tests.antt =====
-- The theorems about misc/adamain/rtems_init.c at typed lines.
use rtems_examples.Common.{ℕ, ◌≡◌, refl, Bool, false, some, List, [], ◌∷◌, ◌==◌, ◌||◌}
use rtems_examples.CommandLine.{arg0, offset, Scan, chop, parse_arguments}
use rtems_examples.CommandLine.Words.{words, word_rest}

abbrev blank : ℕ → Bool
blank c = c == 0x20 || c == 0x09

-- "ls  -l" and its line end.
abbrev typed : List ℕ
typed = 0x6c ∷ 0x73 ∷ 0x20 ∷ 0x20 ∷ 0x2d ∷ 0x6c ∷ 0x0a ∷ []

abbrev parsed : Scan
parsed = record {
  argv = arg0 ∷ offset 0 ∷ offset 4 ∷ [];
  buffer = 0x6c ∷ 0x73 ∷ 0 ∷ 0 ∷ 0x2d ∷ 0x6c ∷ [];
}

typed-parsed : parse_arguments blank (typed ∷ []) ≡ some parsed
unfolding parse_arguments
typed-parsed = refl

-- An empty line is asked for again.
again-parsed : parse_arguments blank ((0x0a ∷ []) ∷ typed ∷ []) ≡ some parsed
unfolding parse_arguments
again-parsed = refl

typed-words : words blank false (chop typed) ≡ (0x6c ∷ 0x73 ∷ []) ∷ (0x2d ∷ 0x6c ∷ []) ∷ []
unfolding words word_rest chop
typed-words = refl

-- Nineteen words.
abbrev crowded : List ℕ
crowded =
    0x61 ∷ 0x20 ∷ 0x61 ∷ 0x20 ∷ 0x61 ∷ 0x20 ∷ 0x61 ∷ 0x20 ∷ 0x61 ∷ 0x20 ∷ 0x61 ∷ 0x20 ∷ 0x61 ∷ 0x20
    ∷ 0x61 ∷ 0x20 ∷ 0x61 ∷ 0x20 ∷ 0x61 ∷ 0x20 ∷ 0x61 ∷ 0x20 ∷ 0x61 ∷ 0x20 ∷ 0x61 ∷ 0x20 ∷ 0x61
    ∷ 0x20 ∷ 0x61 ∷ 0x20 ∷ 0x61 ∷ 0x20 ∷ 0x61 ∷ 0x20 ∷ 0x61 ∷ 0x20 ∷ 0x61 ∷ 0x0a ∷ []

-- The word `ls` now stands where the name of the program was.
name_lost :
    parse_arguments blank (crowded ∷ typed ∷ [])
    ≡ some (record { argv = offset 0 ∷ offset 4 ∷ []; buffer = parsed.buffer })
unfolding parse_arguments
name_lost = refl
