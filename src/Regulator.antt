-- ===== src/Regulator.antt =====
-- misc/regulator/regulator_example.c: two bursts of messages that a regulator delivers evenly.
-- The library behind `rtems/regulator.h` is an `Operations`; each of its calls, and `sleep`, may
-- hand messages to the deliverer while it runs. A text is the list of its octets, without NUL.
pub mod Library
pub mod Messages
pub mod Calls
pub mod Steps
pub mod Bursts
pub mod Delivery
mod Tests
use rtems_examples.Common.{
  ℕ, zero, suc, ◌+◌, ◌-◌, ◌*◌, ◌/◌, ◌%◌, Bool, true, false, not, Option, none, some, List, [], ◌∷◌,
  ◌++◌, ltb, ◌==◌, if◌then◌else◌,
}
use rtems_examples.Common.Lists.{length, take}
use rtems_examples.Regulator.Library.{Text, Attributes, Statistics, Call, Operations}

-- The decimal digits of a number, as many as there are at most.
digits : ℕ → ℕ → Text
digits zero n = []
digits (suc places) n =
    let front = digits places (n / 10) in
    if ltb n 10 then (b'0' + n) ∷ [] else front ++ (b'0' + n % 10) ∷ []

message_prefix : Text
message_prefix = b'm' ∷ b'e' ∷ b's' ∷ b's' ∷ b'a' ∷ b'g' ∷ b'e' ∷ b' ' ∷ []

-- "message %d": an `int` that is not negative has ten digits at most.
pub text : ℕ → Text
unfolding digits message_prefix
text msg = message_prefix ++ digits 10 msg

-- `snprintf`: what is stored in front of the NUL, and what is returned.
pub snprintf : ℕ → Text → Text × ℕ
snprintf size t = (take (size - 1) t, length t)

pub data Line : Type 0 where
  start_line end_line : Line
  burst_line : ℕ → Line
  message_line : (tv_sec tv_nsec : ℕ) → Text → Line
  statistics_line : Statistics → Line

-- `delivered`, and what is on the console.
pub record Seen : Type 0 where
  pub delivered : ℕ
  pub lines : List Line

pub record State (S : Type 0) : Type 0 where
  pub library : S
  pub seen : Seen

-- A failed assertion is `none`.
abbrev pub M : Type 0 → Type 0 → Type 0
M S B = State S → Option (B × State S)

-- `clock` is what `clock_gettime` returns and stores when the count of the delivered is `n`.
pub example_deliverer : (ℕ → ℕ × ℕ × ℕ) → Text → Seen → Option (Bool × Seen)
example_deliverer clock message seen =
    let (rc, tv_sec, tv_nsec) = clock seen.delivered in
    if rc == 0
    then some (
      true,
      record {
        delivered = seen.delivered + 1;
        lines = seen.lines ++ message_line tv_sec tv_nsec message ∷ [];
      },
    )
    else none

pub deliver : (ℕ → ℕ × ℕ × ℕ) → List Text → Seen → Option Seen
unfolding example_deliverer
deliver clock [] seen = some seen
deliver clock (message ∷ rest) seen = elim (example_deliverer clock message seen) [
  | none ↦ none
  | some (released, seen') ↦ deliver clock rest seen'
]

module _ {S : Type 0} where
  abbrev pub pure : {B : Type 0} → B → M S B
  pure b s = some (b, s)

  abbrev pub continue_with :
      {B C : Type 0} → Option (B × State S) → (B → M S C) → Option (C × State S)
  continue_with none f = none
  continue_with (some (b, s)) f = f b s

  infixl 5 ◌>>=◌ ◌>>◌
  abbrev pub ◌>>=◌ : {B C : Type 0} → M S B → (B → M S C) → M S C
  ◌>>=◌ m f s = continue_with (m s) f

  abbrev pub ◌>>◌ : {C : Type 0} → M S (Unit {0}) → M S C → M S C
  m >> k = m >>= λ _. k

  abbrev pub assert : Bool → M S (Unit {0})
  assert holds s = if holds then some (tt, s) else none

  abbrev pub put_line : Line → M S (Unit {0})
  put_line line s =
      some (tt, record s { seen = record s.seen { lines = s.seen.lines ++ line ∷ [] } })

module _ {S : Type 0} (os : Operations S) (clock : ℕ → ℕ × ℕ × ℕ) where
  handed_over : {B : Type 0} → Option Seen → B → S → Option (B × State S)
  handed_over none b library = none
  handed_over (some seen) b library = some (b, record { library = library; seen = seen })

  -- A call of the library, with the deliveries meanwhile.
  pub call : {B : Type 0} → Call S B → M S B
  call f s = let d = f s.library in handed_over (deliver clock d.handed s.seen) d.result d.after

  pub copy : ℕ → Text → M S (Unit {0})
  copy buffer message s = some (tt, record s { library = os.strcpy buffer message s.library })

  -- The part of the inner loop's body behind the assertions on the buffer.
  pub fill_and_send : ℕ → ℕ → M S (Unit {0})
  fill_and_send msg buffer = do
    let (message, printed) = snprintf 32 (text msg)
    copy buffer message
    sent ← call (os.send buffer printed)
    assert (sent == 0)

  -- The body of the inner loop.
  pub send_message : ℕ → M S (Unit {0})
  send_message msg = do
    (sc, buffer) ← call os.obtain_buffer
    assert (sc == 0)
    assert (not (buffer == 0))
    fill_and_send msg buffer

  -- The inner loop with the rounds left; it returns `msg`.
  pub send_burst : ℕ → ℕ → M S ℕ
  send_burst zero msg = pure msg
  send_burst (suc left) msg = do send_message msg; send_burst left (msg + 1)

  -- The outer loop, from burst number `burst` on.
  pub send_bursts : ℕ → ℕ → ℕ → M S ℕ
  send_bursts zero burst msg = pure msg
  send_bursts (suc left) burst msg = do
    put_line (burst_line burst)
    sent ← send_burst 7 msg
    call (os.sleep 5)
    send_bursts left (burst + 1) sent

  -- `RTEMS_MILLISECONDS_TO_TICKS`.
  pub milliseconds_to_ticks : ℕ → ℕ
  milliseconds_to_ticks ms = ms * os.ticks_per_second / 1000

  pub example_attributes : Attributes
  unfolding milliseconds_to_ticks
  example_attributes = record {
    maximum_message_size = 32;
    maximum_messages = 10;
    delivery_thread_priority = 16;
    delivery_thread_stack_size = 0;
    delivery_thread_period = milliseconds_to_ticks 1000;
    maximum_to_dequeue_per_period = 3;
  }

  pub example_send_messages : M S (Unit {0})
  example_send_messages = do
    (sc, regulator) ← call (os.create example_attributes)
    assert (sc == 0)
    assert (not (regulator == 0))
    msg ← send_bursts 2 0 0
    pure tt

  pub test_regulator : M S (Unit {0})
  test_regulator = do
    put_line start_line
    example_send_messages
    (sc, stats) ← call os.get_statistics
    assert (sc == 0)
    put_line (statistics_line stats)
    put_line end_line

-- At the start of the program the count is 1.
abbrev pub start_state : {S : Type 0} → S → State S
start_state library = record { library = library; seen = record { delivered = 1; lines = [] } }
