-- ===== src/Complex1/Program.antt =====
-- led/complex1/test.cc: the program that the user drives by menus.
-- The C library's `tolower` and `qsort`, what `readdir` says of the current directory (or `none`
-- where `opendir` fails) and the kernel's answers on threads are arguments.
mod Files
mod Requests
mod Safe
mod Names
mod Tests
use rtems_examples.Common.{
  ℕ, zero, suc, ◌+◌, ◌-◌, ◌*◌, ◌%◌, ◌^◌, Bool, true, false, Option, none, some, List, [], ◌∷◌, ◌++◌,
  ◌==◌, ltb, if◌then◌else◌,
}
use rtems_examples.Common.Lists.{length, get_elem?}
use rtems_examples.Common.Int.{ℤ, pos, negsuc}
use rtems_examples.Complex1.Server.{Message, start_led, stop_led, shutdown_led, set_period}
use rtems_examples.Complex1.Periodic.{
  Threads, Directives, periodic_threads, start_leaves, stop_leaves, set_number_of_periodic_threads,
}
use rtems_examples.Complex1.Periodic
use rtems_examples.Complex1.Menu.{
  Line, Strtol, Ends, returned, out_of_bounds, and_then, Routine, get_int_bounded, get_selection,
  menu_run,
}

-- The entries of the main menu that only call the kernel.
pub data Usage : Type 0 where
  stack_report cpu_report cpu_reset period_report period_reset : Usage

-- The variables of the file and of periodic.c, the messages written to the LED server, the names
-- given to `stat`, and the calls of the kernel's reports.
pub record Program : Type 0 where
  pub requests : List Message
  pub threads : Threads
  pub file_names : List Line
  pub file_names_loaded : Bool
  pub stats : List Line
  pub usage : List Usage

abbrev pub program : Program
program = record {
  requests = [];
  threads = periodic_threads;
  file_names = [];
  file_names_loaded = false;
  stats = [];
  usage = [];
}

-- A call of a member of the LED server that writes a message.
pub request : Message → Program → Program
request m p = record p { requests = p.requests ++ m ∷ [] }

-- An `int` that is stored to an `unsigned int`.
pub to_unsigned : ℤ → ℕ
to_unsigned (pos n) = n % 2 ^ 32
to_unsigned (negsuc n) = 2 ^ 32 - 1 - n % 2 ^ 32

pub request_period : ℤ → ℤ → Program → Program
unfolding request to_unsigned
request_period on off p = elim (set_period (to_unsigned on) (to_unsigned off)) [
  | none ↦ p
  | some m ↦ request m p
]

-- The difference that `Mystrcasecmp` returns.
pub difference : ℕ → ℕ → ℤ
difference a b = if ltb a b then negsuc (b - a - 1) else pos (a - b)

-- The C library's `tolower` on a `char` and on an `unsigned char`, as bytes; what it returns for a
-- `char`, which may be a negative argument, is known by its 32 bits.
pub record Tolower : Type 0 where
  pub of_char : ℕ → ℕ
  pub of_unsigned_char : ℕ → ℕ

-- The subtraction behind the loop, on the characters that differ.
pub last_difference : Tolower → ℕ → ℕ → ℤ
unfolding difference
last_difference tolower c d = difference (tolower.of_unsigned_char c) (tolower.of_unsigned_char d)

-- `none` is a comparison that goes on behind the NUL of the second string.
pub mystrcasecmp : Tolower → Line → Line → Option ℤ
unfolding last_difference
mystrcasecmp tolower [] [] = some (last_difference tolower 0 0)
mystrcasecmp tolower [] (d ∷ s2) = some (last_difference tolower 0 d)
mystrcasecmp tolower (c ∷ s1) [] =
    if tolower.of_char c == tolower.of_char 0 then none else some (last_difference tolower c 0)
mystrcasecmp tolower (c ∷ s1) (d ∷ s2) =
    let rest = mystrcasecmp tolower s1 s2 in
    if tolower.of_char c == tolower.of_char d then rest else some (last_difference tolower c d)

abbrev pub Qsort : Type 0
Qsort = (Line → Line → Option ℤ) → List Line → List Line

abbrev pub max_files_in_menu : ℕ
max_files_in_menu = 60

-- The loop on `readdir`, which returns the names and whether all of them fit.
pub readdir_loop : List Line → List Line → Bool × List Line
readdir_loop [] file_names = (true, file_names)
readdir_loop (d ∷ entries) file_names =
    let more = file_names ++ d ∷ [] in
    let rest = readdir_loop entries more in
    if ltb (length more) max_files_in_menu then rest else (false, more)

-- `qsort` on all names but the first.
pub sort_names : Tolower → Qsort → List Line → List Line
unfolding mystrcasecmp
sort_names tolower qsort [] = []
sort_names tolower qsort (first ∷ file_names) = first ∷ qsort (mystrcasecmp tolower) file_names

-- The first entry of the menu of files.
abbrev pub return_to_previous_menu : Line
return_to_previous_menu =
    b'R' ∷ b'e' ∷ b't' ∷ b'u' ∷ b'r' ∷ b'n' ∷ b' ' ∷ b't' ∷ b'o' ∷ b' ' ∷ b'p' ∷ b'r' ∷ b'e' ∷ b'v'
    ∷ b'i' ∷ b'o' ∷ b'u' ∷ b's' ∷ b' ' ∷ b'm' ∷ b'e' ∷ b'n' ∷ b'u' ∷ []

module _ (strtol : Strtol) (tolower : Tolower) (qsort : Qsort) (directory : Option (List Line))
    (d : Directives) where
  -- `LoadDirectoryMenu`: `true` is its return of 0.
  pub load_directory_menu : Program → Bool × Program
  unfolding readdir_loop sort_names
  load_directory_menu p =
      let q = record p { file_names_loaded = true } in
      let loaded : Bool × Program = elim directory [
        | none ↦ (false, q)
        | some entries ↦
            let (fits, names) =
              readdir_loop entries (p.file_names ++ return_to_previous_menu ∷ []) in
            if fits
            then (true, record q { file_names = sort_names tolower qsort names })
            else (false, record q { file_names = names })
      ] in
      if p.file_names_loaded then (true, p) else loaded

  -- `statFile` behind the choice of a file.
  pub stat_selected : ℤ → Routine Program
  stat_selected (pos zero) p lines = returned p lines
  stat_selected (pos (suc i)) p lines = elim (get_elem? p.file_names (suc i)) [
    | none ↦ out_of_bounds
    | some name ↦ returned (record p { stats = p.stats ++ name ∷ [] }) lines
  ]
  stat_selected (negsuc i) p lines = out_of_bounds

  -- `statFile` behind `LoadDirectoryMenu`.
  pub stat_loaded : Bool → Routine Program
  unfolding stat_selected
  stat_loaded loaded p lines =
      let picked =
        and_then (get_selection strtol (length p.file_names) lines)
          (λ selected rest. stat_selected selected p rest) in
      if loaded then picked else returned p lines

  pub stat_file : Routine Program
  unfolding load_directory_menu stat_loaded
  stat_file p lines = let (loaded, q) = load_directory_menu p in stat_loaded loaded q lines

  pub start_led_server : Routine Program
  unfolding request
  start_led_server p lines = returned (request start_led p) lines

  pub stop_led_server : Routine Program
  unfolding request
  stop_led_server p lines = returned (request stop_led p) lines

  pub set_period_of_led : Routine Program
  unfolding request_period
  set_period_of_led p lines =
      and_then (get_int_bounded strtol (pos 1) (pos 10000) lines) (λ on_period rest.
        and_then (get_int_bounded strtol (pos 1) (pos 10000) rest)
          (λ off_period later. returned (request_period on_period off_period p) later))

  pub start_periodic_threads : Routine Program
  start_periodic_threads p lines =
      if start_leaves d p.threads
      then out_of_bounds
      else returned (record p { threads = Periodic.start d p.threads }) lines

  pub stop_periodic_threads : Routine Program
  stop_periodic_threads p lines =
      if stop_leaves d p.threads
      then out_of_bounds
      else returned (record p { threads = Periodic.stop d p.threads }) lines

  pub enter_number_of_periodic_threads : Routine Program
  unfolding to_unsigned
  enter_number_of_periodic_threads p lines =
      and_then (get_int_bounded strtol (pos 1) (pos 100) lines) (λ threads rest.
        returned
          (record p { threads = set_number_of_periodic_threads (to_unsigned threads) p.threads })
          rest)

  pub report_usage : Usage → Routine Program
  report_usage u p lines = returned (record p { usage = p.usage ++ u ∷ [] }) lines

  pub led_menu_entries : List (Routine Program)
  led_menu_entries = start_led_server ∷ stop_led_server ∷ set_period_of_led ∷ []

  pub periodic_threads_menu_entries : List (Routine Program)
  periodic_threads_menu_entries =
      start_periodic_threads ∷ stop_periodic_threads ∷ enter_number_of_periodic_threads ∷ []

  -- The two inner menus have the fuel of the main menu.
  pub main_menu_entries : ℕ → List (Routine Program)
  main_menu_entries fuel =
      menu_run strtol fuel led_menu_entries
      ∷ stat_file
      ∷ menu_run strtol fuel periodic_threads_menu_entries
      ∷ report_usage stack_report
      ∷ report_usage cpu_report
      ∷ report_usage cpu_reset
      ∷ report_usage period_report
      ∷ report_usage period_reset
      ∷ []

  -- `doTest`; the destructor of the server writes the last message.
  pub do_test : ℕ → Routine Program
  unfolding main_menu_entries request stop_periodic_threads
  do_test fuel p lines = and_then (menu_run strtol fuel (main_menu_entries fuel) p lines) (λ q rest.
      and_then (stop_periodic_threads q rest) (λ r later. returned (request shutdown_led r) later))
