-- ===== src/SignalMask.antt =====
-- posix_api/psx_initial_sigmask/main.c: a thread should start with the signal mask of its creator.
-- A signal set is the list of its bytes, and the calls of the system are the fields of a `Calls`. A
-- thread that is created runs to its end while `main` sleeps; `none` is an assertion that failed.
mod Inherited
mod Tests
use rtems_examples.Common.{
  ℕ, zero, suc, Bool, true, false, Option, none, some, List, [], ◌∷◌, ◌++◌, ◌==◌, ◌&&◌,
  if◌then◌else◌,
}

abbrev pub Sigset : Type 0
Sigset = List ℕ

-- What a call returns, and what it does where it returns 0.
pub record Calls : Type 0 where
  pub sigemptyset_rc : ℕ
  pub sigaddset_rc : ℕ
  pub sigprocmask_rc : ℕ
  pub pthread_create_rc : ℕ
  pub empty_set : Sigset
  pub add : ℕ → Sigset → Sigset
  -- The mask of a thread with mask `m` after it has blocked the signals of a set.
  pub block : Sigset → Sigset → Sigset
  -- The mask that `pthread_create` gives to a thread whose creator has mask `m`.
  pub new_mask : Sigset → Sigset

-- The names that the masks are printed under.
pub data Name : Type 0 where
  empty main thread1 thread2 : Name

-- The mask of the thread that runs `main`, the variable `main_sigmask`, and the lines printed.
pub record State : Type 0 where
  pub mask : Sigset
  pub main_sigmask : Sigset
  pub output : List (Name × Sigset)

-- The number of SIGUSR1, and how many bytes `memcmp` compares.
module _ (calls : Calls) (sigusr1 : ℕ) (sigset_nwords : ℕ) where
  asserted {ℓ} : {A : Type ℓ} → ℕ → Option A → Option A
  asserted rc rest = if rc == 0 then rest else none

  -- `print_sigmask` in a thread with mask `own`: what it stores, and its output behind that before.
  pub print_sigmask : Name → Sigset → List (Name × Sigset) → Option (Sigset × List (Name × Sigset))
  unfolding asserted
  print_sigmask name own output =
      asserted calls.sigemptyset_rc
        (asserted calls.sigprocmask_rc (some (own, output ++ (name, own) ∷ [])))

  -- The set that `block_sigmask` blocks is stored to a local variable, and the result to `main_sigmask`.
  pub block_sigmask : ℕ → State → Option State
  unfolding asserted
  block_sigmask signo s =
      let mask = calls.block s.mask (calls.add signo calls.empty_set) in
      asserted calls.sigemptyset_rc (
        asserted calls.sigaddset_rc (
          asserted calls.sigprocmask_rc
            (asserted calls.sigprocmask_rc (some (record s { mask = mask; main_sigmask = mask })))))

  -- `memcmp` of the first `n` bytes gives 0.
  pub same_bytes : ℕ → Sigset → Sigset → Bool
  same_bytes zero a b = true
  same_bytes (suc n) [] [] = true
  same_bytes (suc n) [] (y ∷ b) = false
  same_bytes (suc n) (x ∷ a) [] = false
  same_bytes (suc n) (x ∷ a) (y ∷ b) = (x == y) && same_bytes n a b

  -- `thread_body` of a thread with mask `own`: it prints to `main_sigmask`, then to its local `mask`.
  pub thread_body : Name → Sigset → State → Option State
  unfolding print_sigmask same_bytes
  thread_body name own s = elim (print_sigmask main own s.output) [
    | none ↦ none
    | some (main_sigmask, first) ↦ elim (print_sigmask name own first) [
      | none ↦ none
      | some (mask, second) ↦
          if same_bytes sigset_nwords main_sigmask mask
          then some (record s { main_sigmask = main_sigmask; output = second })
          else none
    ]
  ]

  -- `pthread_create`, and the run of the new thread.
  pub create_thread : Name → State → Option State
  unfolding thread_body asserted
  create_thread name s =
      asserted calls.pthread_create_rc (thread_body name (calls.new_mask s.mask) s)

  -- `main` up to the line that it ends with.
  pub main_body : State → Option State
  unfolding print_sigmask create_thread block_sigmask
  main_body s = elim (print_sigmask empty s.mask s.output) [
    | none ↦ none
    | some (local, first) ↦ elim (print_sigmask main s.mask first) [
      | none ↦ none
      | some (main_sigmask, second) ↦
          elim (create_thread thread1 (record s { main_sigmask = main_sigmask; output = second })) [
            | none ↦ none
            | some t ↦ elim (block_sigmask sigusr1 t) [
              | none ↦ none
              | some u ↦ create_thread thread2 u
            ]
          ]
    ]
  ]
