-- ===== src/CommandLine/Program.antt =====
-- misc/adamain/rtems_init.c: `POSIX_Init`, which creates the thread of the Ada program, and
-- `start_gnat_main`, which is that thread. The options for a network, for a file system image and
-- for another initialisation are not set.
pub mod Start
mod Tests
use rtems_examples.Common.{
  ℕ, ◌*◌, ◌+◌, Bool, true, false, Option, none, some, List, ◌==◌, ltb, if◌then◌else◌,
}
use rtems_examples.Common.Lists.{length}
use rtems_examples.CommandLine.{Arg, Scan, parse_arguments}

-- What the pthread calls return, `pthread_attr_setstacksize` by the size.
pub record Pthreads : Type 0 where
  pub attr_init_status : ℕ
  pub setstacksize_status : ℕ → ℕ
  pub create_status : ℕ

pub data Policy : Type 0 where
  fifo round_robin : Policy

pub record ThreadAttributes : Type 0 where
  pub stacksize : ℕ
  pub schedpolicy : Policy
  pub sched_priority : ℕ

-- The thread that `pthread_create` makes, or the assertion that fails.
pub data Creation : Type 0 where
  init_failed setstacksize_failed create_failed : Creation
  created : ThreadAttributes → Creation

-- `GNAT_MAIN_STACKSPACE` and what `_ada_pthread_minimum_stack_size` returns; the product is taken
-- to fit into an `int`.
pub main_stack_size : (stackspace minimum : ℕ) → ℕ
main_stack_size stackspace minimum =
    let stacksize = stackspace * 1024 in if ltb stacksize minimum then minimum else stacksize

pub posix_init : Pthreads → (stackspace minimum : ℕ) → Creation
unfolding main_stack_size
posix_init os stackspace minimum =
    let stacksize = main_stack_size stackspace minimum in
    let thread : ThreadAttributes = record {
      stacksize = stacksize;
      schedpolicy = round_robin;
      sched_priority = 122;
    } in
    let at_create = if os.create_status == 0 then created thread else create_failed in
    let at_size =
      if os.setstacksize_status stacksize == 0 then at_create else setstacksize_failed in
    if os.attr_init_status == 0 then at_size else init_failed

-- How the program goes on: `calls_ada` are the arguments that `gnat_main` gets, `argc`, `argv` and
-- the buffer behind it; behind that call the program exits.
pub data Run : Type 0 where
  assert_failed : Run
  waits_for_input : Run
  calls_ada : ThreadAttributes → (argc : ℕ) → Scan → Run

-- `start_gnat_main` on the lines that are typed.
pub start_gnat_main : (ℕ → Bool) → List (List ℕ) → ThreadAttributes → Run
start_gnat_main is_space lines thread = elim (parse_arguments is_space lines) [
  | none ↦ waits_for_input
  | some s ↦ calls_ada thread (length s.argv) s
]

pub ada_program : (ℕ → Bool) → Pthreads → (stackspace minimum : ℕ) → List (List ℕ) → Run
unfolding posix_init start_gnat_main
ada_program is_space os stackspace minimum lines = elim (posix_init os stackspace minimum) [
  | created thread ↦ start_gnat_main is_space lines thread
  | init_failed ↦ assert_failed
  | setstacksize_failed ↦ assert_failed
  | create_failed ↦ assert_failed
]
