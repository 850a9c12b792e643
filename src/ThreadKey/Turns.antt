-- ===== src/ThreadKey/Turns.antt =====
-- c11/c11_key01/test.c: the state that the threads keep where they run in turn, step by step.
use rtems_examples.Common.{
  ℕ, ◌+◌, ◌≡◌, refl, subst, sym, arith, Bool, true, false, Option, none, some,
}
use rtems_examples.Common.Lists.{All, All-append}
use rtems_examples.ThreadKey.{
  At, absent, entered, assigned, reported, gone, Thread, Effect, thread_body, MainAt, creates_one,
  creates_two, creates_key, assigns, sleeps, reports, deletes, returned, State, by_thread,
  run_thread1, run_thread2,
}

-- A line that shows the number of its thread.
abbrev pub IsOwn : ℕ × ℕ → Type 0
IsOwn (number, v) = v ≡ number

-- The cells that are held under the key.
abbrev pub held : Option ℕ → ℕ
held none = 0
held (some v) = 1

-- The value of a thread with a number, by where it is.
abbrev pub Holds : ℕ → At → Option ℕ → Type 0
Holds number absent v = v ≡ none
Holds number entered v = v ≡ none
Holds number assigned v = v ≡ some number
Holds number reported v = v ≡ some number
Holds number gone v = v ≡ none

-- How far the threads are and whether there is a key, by where `main` is, and its own value.
abbrev pub Turn : MainAt → At → At → Bool → Option ℕ → Type 0
Turn creates_one a b key v = (a ≡ absent) × (b ≡ absent) × (key ≡ false) × (v ≡ none)
Turn creates_two a b key v = (a ≡ entered) × (b ≡ absent) × (key ≡ false) × (v ≡ none)
Turn creates_key a b key v = (a ≡ entered) × (b ≡ entered) × (key ≡ false) × (v ≡ none)
Turn assigns a b key v = (a ≡ entered) × (b ≡ entered) × (key ≡ true) × (v ≡ none)
Turn sleeps a b key v = (key ≡ true) × (v ≡ some 128)
Turn reports a b key v = (a ≡ gone) × (b ≡ gone) × (key ≡ true) × (v ≡ some 128)
Turn deletes a b key v = (a ≡ gone) × (b ≡ gone) × (key ≡ true) × (v ≡ some 128)
Turn returned a b key v = (a ≡ gone) × (b ≡ gone) × (key ≡ false) × (v ≡ some 128)

pub record IsOrderly (s : State) : Type 0 where
  pub turn : Turn s.main_at s.thread1.at s.thread2.at s.key s.main_value
  pub holds1 : Holds 1 s.thread1.at s.thread1.value
  pub holds2 : Holds 2 s.thread2.at s.thread2.value
  pub own : All IsOwn s.lines
  pub cells :
      s.allocated ≡ s.freed + held s.main_value + held s.thread1.value + held s.thread2.value
  pub well : s.failed ≡ false

-- What a step of a thread keeps where there is a key.
record Kept (number : ℕ) (t : Thread) (e : Effect) : Type 0 where
  holds : Holds number e.after.at e.after.value
  own : All IsOwn (by_thread number e.prints)
  cells : e.allocates + held t.value ≡ e.frees + held e.after.value
  well : e.fails ≡ false

pub some_injective : {v w : ℕ} → some v ≡ some w → v ≡ w
some_injective e = cc

body-Kept :
    (number : ℕ) (at : At) (value : Option ℕ)
    → Holds number at value
    → Kept number
        (record { at = at; value = value })
        (thread_body number true (record { at = at; value = value }))
unfolding thread_body
body-Kept number absent value h = record { holds = h; own = tt; cells = omega arith; well = refl }
body-Kept number entered value h = record { holds = refl; own = tt; cells = rw h refl; well = refl }
body-Kept number assigned none h = absurd (cc)
body-Kept number assigned (some v) h = record {
  holds = h;
  own = (some_injective h, tt);
  cells = omega arith;
  well = refl;
}
body-Kept number reported none h = absurd (cc)
body-Kept number reported (some v) h = record {
  holds = refl;
  own = tt;
  cells = omega arith;
  well = refl;
}
body-Kept number gone value h = record { holds = h; own = tt; cells = omega arith; well = refl }

with_key :
    (number : ℕ) (key : Bool) (t : Thread)
    → key ≡ true
    → Holds number t.at t.value
    → Kept number t (thread_body number key t)
with_key number key t e h =
    subst (λ k. Kept number t (thread_body number k t)) (sym e) (body-Kept number t.at t.value h)

pub thread1-IsOrderly : (s : State) → s.main_at ≡ sleeps → IsOrderly s → IsOrderly (run_thread1 s)
unfolding run_thread1
thread1-IsOrderly s asleep o =
    let turn = rw asleep at o.turn in
    let k = with_key 1 s.key s.thread1 turn.0 o.holds1 in
    record {
      turn = rw asleep turn;
      holds1 = k.holds;
      holds2 = o.holds2;
      own =
          All-append IsOwn s.lines (by_thread 1 (thread_body 1 s.key s.thread1).prints) o.own k.own;
      cells = omega (arith, o.cells, k.cells);
      well = k.well;
    }

pub thread2-IsOrderly : (s : State) → s.main_at ≡ sleeps → IsOrderly s → IsOrderly (run_thread2 s)
unfolding run_thread2
thread2-IsOrderly s asleep o =
    let turn = rw asleep at o.turn in
    let k = with_key 2 s.key s.thread2 turn.0 o.holds2 in
    record {
      turn = rw asleep turn;
      holds1 = o.holds1;
      holds2 = k.holds;
      own =
          All-append IsOwn s.lines (by_thread 2 (thread_body 2 s.key s.thread2).prints) o.own k.own;
      cells = omega (arith, o.cells, k.cells);
      well = k.well;
    }
