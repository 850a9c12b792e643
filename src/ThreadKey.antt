-- ===== src/ThreadKey.antt =====
-- c11/c11_key01/test.c: three threads with one key of thread-specific storage.
-- A step is what a thread does up to its next call of the key, of the scheduler or of the heap. The
-- calls succeed, but for those with a key that is not created; there is always memory. A cell of the
-- heap is the number that it holds.
pub mod Turns
pub mod Cells
mod Tests
use rtems_examples.Common.{
  ℕ, ◌+◌, ◌≡◌, ◌≢◌, ◌⊎◌, Bool, true, false, Option, none, some, List, [], ◌∷◌, ◌++◌, if◌then◌else◌,
}
use mathlib.Core.List.{map}

pub data At : Type 0 where
  absent : At
  -- In front of `tss_set`, of `tss_get` and of `thrd_exit`, and behind it.
  entered assigned reported gone : At

-- A thread with the value of the key for it.
pub record Thread : Type 0 where
  pub at : At
  pub value : Option ℕ

-- What a step of a thread does.
pub record Effect : Type 0 where
  pub after : Thread
  pub allocates : ℕ
  pub frees : ℕ
  pub prints : List ℕ
  -- An assertion fails, or NULL is used.
  pub fails : Bool

-- `rc = tss_set(tss1, tss_alloc(number))` with its assertion.
pub assign : ℕ → Bool → Thread → Effect
assign number key t =
    if key
    then record {
      after = record { at = assigned; value = some number };
      allocates = 1;
      frees = 0;
      prints = [];
      fails = false;
    }
    else record { after = t; allocates = 1; frees = 0; prints = []; fails = true }

-- `tss_get` and the line; a key that is not there any more gives NULL.
pub report : Bool → Thread → Effect
report key t =
    let null_used : Effect = record {
      after = t;
      allocates = 0;
      frees = 0;
      prints = [];
      fails = true;
    } in
    elim t.value [
      | none ↦ null_used
      | some v ↦
          if key
          then record {
            after = record t { at = reported };
            allocates = 0;
            frees = 0;
            prints = v ∷ [];
            fails = false;
          }
          else null_used
    ]

-- `thrd_exit`, which calls `tss_free` for a value of a key that is there.
pub leave : Bool → Thread → Effect
leave key t =
    let keeps : Effect = record {
      after = record t { at = gone };
      allocates = 0;
      frees = 0;
      prints = [];
      fails = false;
    } in
    elim t.value [
      | none ↦ keeps
      | some v ↦
          if key
          then record {
            after = record { at = gone; value = none };
            allocates = 0;
            frees = 1;
            prints = [];
            fails = false;
          }
          else keeps
    ]

-- `Thread1_Body` and `Thread2_Body`, which differ in the number.
pub thread_body : ℕ → Bool → Thread → Effect
unfolding assign report leave
thread_body number key t = elim t.at [
  | entered ↦ assign number key t
  | assigned ↦ report key t
  | reported ↦ leave key t
  | absent ↦ record { after = t; allocates = 0; frees = 0; prints = []; fails = false }
  | gone ↦ record { after = t; allocates = 0; frees = 0; prints = []; fails = false }
]

-- Where `main` is: in front of the call.
pub data MainAt : Type 0 where
  creates_one creates_two creates_key assigns sleeps reports deletes returned : MainAt

pub record State : Type 0 where
  pub main_at : MainAt
  pub main_value : Option ℕ
  pub thread1 : Thread
  pub thread2 : Thread
  pub key : Bool
  -- The number of the thread and the value that it prints.
  pub lines : List (ℕ × ℕ)
  pub allocated : ℕ
  pub freed : ℕ
  pub failed : Bool

abbrev by_thread : ℕ → List ℕ → List (ℕ × ℕ)
by_thread number values = map (λ v. (number, v)) values

pub run_thread1 : State → State
unfolding thread_body
run_thread1 s =
    let e = thread_body 1 s.key s.thread1 in
    record s {
      thread1 = e.after;
      lines = s.lines ++ by_thread 1 e.prints;
      allocated = s.allocated + e.allocates;
      freed = s.freed + e.frees;
      failed = e.fails;
    }

pub run_thread2 : State → State
unfolding thread_body
run_thread2 s =
    let e = thread_body 2 s.key s.thread2 in
    record s {
      thread2 = e.after;
      lines = s.lines ++ by_thread 2 e.prints;
      allocated = s.allocated + e.allocates;
      freed = s.freed + e.frees;
      failed = e.fails;
    }

abbrev pub begun : Thread
begun = record { at = entered; value = none }

-- `main`; its value stays when the key is deleted, since `tss_delete` calls no `tss_free`.
pub run_main : State → State
run_main s = elim s.main_at [
  | creates_one ↦ record s { main_at = creates_two; thread1 = begun }
  | creates_two ↦ record s { main_at = creates_key; thread2 = begun }
  | creates_key ↦ record s { main_at = assigns; key = true }
  | assigns ↦ record s { main_at = sleeps; main_value = some 128; allocated = s.allocated + 1 }
  | sleeps ↦ record s { main_at = reports }
  | reports ↦ elim s.main_value [
    | none ↦ record s { failed = true }
    | some v ↦ record s { main_at = deletes; lines = s.lines ++ (128, v) ∷ [] }
  ]
  | deletes ↦ record s { main_at = returned; key = false }
  | returned ↦ s
]

-- With `in_turn`, a thread that is created runs only when `main` sleeps, and `main` sleeps until
-- both are gone; with `any` the threads run as they like.
pub data Rule : Type 0 where
  in_turn any : Rule

pub data Step (rule : Rule) : State → State → Type 0 where
  main_runs :
      (s : State)
      → s.failed ≡ false
      → s.main_at ≢ returned
      → (rule ≡ any) ⊎ ((s.main_at ≢ sleeps) ⊎ ((s.thread1.at ≡ gone) × (s.thread2.at ≡ gone)))
      → Step rule s (run_main s)
  thread1_runs :
      (s : State)
      → s.failed ≡ false
      → s.main_at ≢ returned
      → (rule ≡ any) ⊎ (s.main_at ≡ sleeps)
      → Step rule s (run_thread1 s)
  thread2_runs :
      (s : State)
      → s.failed ≡ false
      → s.main_at ≢ returned
      → (rule ≡ any) ⊎ (s.main_at ≡ sleeps)
      → Step rule s (run_thread2 s)

pub data Reach (rule : Rule) (s : State) : State → Type 0 where
  here : Reach rule s s
  next : {t u : State} → Reach rule s t → Step rule t u → Reach rule s u

unfoldable pub start : State
start = record {
  main_at = creates_one;
  main_value = none;
  thread1 = record { at = absent; value = none };
  thread2 = record { at = absent; value = none };
  key = false;
  lines = [];
  allocated = 0;
  freed = 0;
  failed = false;
}
