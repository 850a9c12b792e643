-- ===== src/CommandLine/Program/Start.antt =====
-- misc/adamain/rtems_init.c from `POSIX_Init` to the call of `gnat_main`.
use rtems_examples.Common.{ℕ, ◌+◌, ◌*◌, ◌<◌, ◌≡◌, refl, ap, arith, Bool, false, List, [], ◌∷◌, max}
use rtems_examples.Common.Lists.{length, length-map}
use rtems_examples.CommandLine.{
  command_line_maximum, arg0, offset, most_arguments, Scan, chop, string_at,
}
use rtems_examples.CommandLine.Words.{words, IsText, Finds}
use rtems_examples.CommandLine.Limit.{parse_arguments-words}
use rtems_examples.CommandLine.Program.{
  Pthreads, round_robin, ThreadAttributes, created, main_stack_size, posix_init, calls_ada,
  start_gnat_main, ada_program,
}

abbrev pub ada_thread : (stackspace minimum : ℕ) → ThreadAttributes
ada_thread stackspace minimum = record {
  stacksize = max (stackspace * 1024) minimum;
  schedpolicy = round_robin;
  sched_priority = 122;
}

size :
    (stackspace minimum : ℕ) → main_stack_size stackspace minimum ≡ max (stackspace * 1024) minimum
unfolding main_stack_size
size stackspace minimum = ground arith

module _ (is_space : ℕ → Bool) (os : Pthreads) (stackspace minimum : ℕ) (line : List ℕ)
    (lines : List (List ℕ)) where
  thread_made :
      os.attr_init_status ≡ 0
      → os.setstacksize_status (max (stackspace * 1024) minimum) ≡ 0
      → os.create_status ≡ 0
      → posix_init os stackspace minimum ≡ created (ada_thread stackspace minimum)
  unfolding posix_init
  thread_made e1 e2 e3 = rw (e1, size stackspace minimum, e2, e3) refl

  -- When no pthread call fails and the first line is shorter than the buffer of 200 characters, and
  -- has at least one word and at most eighteen, and no NUL, the Ada program is called on a thread with the stack that was configured, or with the
  -- least one where that is more. It gets as many arguments as there are words and one, for its
  -- name, and the C strings of the others are the words, in order.
  pub ada_program-words :
      os.attr_init_status ≡ 0
      → os.setstacksize_status (max (stackspace * 1024) minimum) ≡ 0
      → os.create_status ≡ 0
      → length line < command_line_maximum
      → IsText is_space (chop line)
      → 0 < length (words is_space false (chop line))
      → length (words is_space false (chop line)) < most_arguments
      → (s : Scan) × (ada_program is_space os stackspace minimum (line ∷ lines)
          ≡ calls_ada
              (ada_thread stackspace minimum)
              (length (words is_space false (chop line)) + 1)
              s)
        × Finds is_space false 0 (arg0 ∷ []) (chop line) s
  unfolding ada_program start_gnat_main
  ada_program-words e1 e2 e3 fit t some_words few =
      let (s, result, found) = parse_arguments-words is_space line lines fit t some_words few in
      let n = length-map found.places (λ k. offset (0 + k)) in
      let p = length-map found.places (string_at s.buffer) in
      let count : length s.argv ≡ length (words is_space false (chop line)) + 1 =
        omega (arith, n, p, ap length found.added, ap length found.strings) in
      (
        s,
        rw (thread_made e1 e2 e3, result, ada_program, start_gnat_main)
            (ap (λ k. calls_ada (ada_thread stackspace minimum) k s) count),
        found,
      )
