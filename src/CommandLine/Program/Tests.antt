-- ===== src/CommandLine/Program/Tests.antt =====
-- Runs of misc/adamain/rtems_init.c, and the theorem at one of them.
use rtems_examples.Common.{ℕ, ◌+◌, ◌≡◌, refl, arith, Bool, false, List, [], ◌∷◌, ◌==◌, ◌||◌}
use rtems_examples.Common.Lists.{length}
use rtems_examples.CommandLine.{arg0, Scan, chop, parse_arguments}
use rtems_examples.CommandLine.Words.{words, word_rest, Finds}
use rtems_examples.CommandLine.Program.{
  Pthreads, ada_program, assert_failed, waits_for_input, calls_ada,
}
use rtems_examples.CommandLine.Program.Start.{ada_thread, ada_program-words}

abbrev blank : ℕ → Bool
blank c = c == 0x20 || c == 0x09

-- "ls  -l" and its line end.
abbrev typed : List ℕ
typed = 0x6c ∷ 0x73 ∷ 0x20 ∷ 0x20 ∷ 0x2d ∷ 0x6c ∷ 0x0a ∷ []

abbrev succeeds : Pthreads
succeeds = record { attr_init_status = 0; setstacksize_status = λ n. 0; create_status = 0 }

no_thread :
    ada_program blank (record succeeds { create_status = 11 }) 100 8192 (typed ∷ []) ≡ assert_failed
unfolding ada_program
no_thread = refl

nothing_typed : ada_program blank succeeds 100 8192 ((0x0a ∷ []) ∷ []) ≡ waits_for_input
unfolding ada_program parse_arguments
nothing_typed = refl

ada_program-words_example :
    (s : Scan) × (ada_program blank succeeds 4 8192 (typed ∷ [])
      ≡ calls_ada (ada_thread 4 8192) (length (words blank false (chop typed)) + 1) s)
    × Finds blank false 0 (arg0 ∷ []) (chop typed) s
unfolding words word_rest chop
ada_program-words_example =
    ada_program-words blank succeeds 4 8192 typed [] refl refl refl (omega arith) (omega arith)
      (omega arith) (omega arith)
