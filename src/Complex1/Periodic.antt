-- ===== src/Complex1/Periodic.antt =====
-- led/complex1/periodic.c: the threads that load the processor, started and stopped together.
-- The kernel's answers to the directives for thread `i` are the numbers of a `Directives`.
mod Lifecycle
pub mod Arrays
mod Names
mod Tests
use rtems_examples.Common.{
  ℕ, zero, suc, ◌+◌, ◌-◌, ◌*◌, ◌/◌, ◌%◌, ◌^◌, Bool, true, false, List, [], ◌∷◌, ◌++◌, ◌==◌, ltb,
  if◌then◌else◌,
}

pub record Directives : Type 0 where
  pub task_create : ℕ → ℕ
  pub task_start : ℕ → ℕ
  pub rate_monotonic_delete : ℕ → ℕ
  pub task_delete : ℕ → ℕ

-- The variables of the file, and the directives that took effect so far.
pub data Effect : Type 0 where
  created : ℕ → Effect
  started : ℕ → Effect
  period_deleted : ℕ → Effect
  deleted : ℕ → Effect

pub record Threads : Type 0 where
  pub initialized : Bool
  pub running : Bool
  -- `PeriodicThreads_Count`
  pub count : ℕ
  pub effects : List Effect

-- The variables as they are at the start.
abbrev pub periodic_threads_count : ℕ
periodic_threads_count = 10

abbrev pub periodic_threads : Threads
periodic_threads = record {
  initialized = false;
  running = false;
  count = periodic_threads_count;
  effects = [];
}

-- `SetNumberOfPeriodicThreads` of led/complex1/test.cc, with the number that was entered.
pub set_number_of_periodic_threads : ℕ → Threads → Threads
set_number_of_periodic_threads threads t = record t { count = threads }

abbrev pub log : Threads → Effect → Threads
log t e = record t { effects = t.effects ++ e ∷ [] }

-- The loop of `PeriodicThreads_Initialize` at `i`, with `rounds` left, and what stands behind it.
pub initialize_loop : Directives → ℕ → ℕ → Threads → Threads
initialize_loop d zero i t = record t { running = true; initialized = true }
initialize_loop d (suc rounds) i t =
    let rest = initialize_loop d rounds (i + 1) (log (log t (created i)) (started i)) in
    if d.task_create i == 0 then (if d.task_start i == 0 then rest else log t (created i)) else t

pub initialize : Directives → Threads → Threads
initialize d t =
    let start = initialize_loop d t.count 0 (record t { running = false }) in
    if t.initialized then t else start

pub start : Directives → Threads → Threads
unfolding initialize
start d t = initialize d t

-- The loop of `PeriodicThreads_Stop`.
pub stop_loop : Directives → ℕ → ℕ → Threads → Threads
stop_loop d zero i t = record t { running = false; initialized = false }
stop_loop d (suc rounds) i t =
    let rest = stop_loop d rounds (i + 1) (log (log t (period_deleted i)) (deleted i)) in
    if d.rate_monotonic_delete i == 0
    then (if d.task_delete i == 0 then rest else log t (period_deleted i))
    else t

unfoldable pub stop : Directives → Threads → Threads
stop d t = let stopped = stop_loop d t.count 0 t in if t.initialized then stopped else t

-- How many elements `PeriodicThreads_Ids` and `PeriodicThreads_Periods` have.
abbrev pub max_periodic : ℕ
max_periodic = 100

-- Whether the loop of `PeriodicThreads_Initialize` comes to an element behind the end of the array
-- of ids, at `i` with `rounds` left.
pub initialize_leaves : Directives → ℕ → ℕ → Bool
initialize_leaves d zero i = false
initialize_leaves d (suc rounds) i =
    let rest = initialize_leaves d rounds (i + 1) in
    if ltb i max_periodic
    then (if d.task_create i == 0 then (if d.task_start i == 0 then rest else false) else false)
    else true

unfoldable pub start_leaves : Directives → Threads → Bool
start_leaves d t =
    let leaves = initialize_leaves d t.count 0 in if t.initialized then false else leaves

-- The same for the loop of `PeriodicThreads_Stop` and both arrays.
pub stop_loop_leaves : Directives → ℕ → ℕ → Bool
stop_loop_leaves d zero i = false
stop_loop_leaves d (suc rounds) i =
    let rest = stop_loop_leaves d rounds (i + 1) in
    if ltb i max_periodic
    then (if d.rate_monotonic_delete i == 0
        then (if d.task_delete i == 0 then rest else false)
        else false)
    else true

unfoldable pub stop_leaves : Directives → Threads → Bool
stop_leaves d t =
    let leaves = stop_loop_leaves d t.count 0 in if t.initialized then leaves else false

-- A digit of `%02x`, and the four characters that `rtems_build_name` packs, the first highest.
pub hex_digit : ℕ → ℕ
hex_digit n = if ltb n 10 then b'0' + n else b'a' + (n - 10)

unfoldable pub build_name : ℕ → ℕ → ℕ → ℕ → ℕ
build_name c1 c2 c3 c4 = c1 * 2 ^ 24 + c2 * 2 ^ 16 + c3 * 2 ^ 8 + c4

-- The name of thread `i`: "TA%02x", of which `buf[2]` and `buf[3]` are the two digits below 256.
pub task_name : ℕ → ℕ
task_name i = build_name b'T' b'A' (hex_digit (i / 16)) (hex_digit (i % 16))

pub period_name : ℕ → ℕ
period_name i = build_name b'P' b'E' (hex_digit (i / 16)) (hex_digit (i % 16))

pub factorial : ℕ → ℕ
factorial i = if i == 1 then 1 else i * (i - 1)

-- The body of thread `index` in ticks: the period it asks for, and how long it then sleeps.
pub body_period : ℕ → ℕ × ℕ
body_period index = let t = index + 1 in (t * 2, t)
