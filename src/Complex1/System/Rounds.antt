-- ===== src/Complex1/System/Rounds.antt =====
-- led/complex1: one call of a client and one round of the LED server, on a well-formed queue.
use rtems_examples.Common.{
  ℕ, ◌≤◌, ◌<◌, ◌≡◌, refl, ◌∙◌, sym, ap, arith, true, false, Option, none, some, List, [], ◌∷◌, ◌++◌,
  ltb, if◌then◌else◌, ◌⊎◌, inl, inr,
}
use rtems_examples.Common.Lists.{length, length-map}
use native.Mathlib.Decide.{dec_lt}
use rtems_examples.Complex1.Queue.{
  M, Queue, Outcome, returned, pure, ◌>>=◌, continue_with, write, read, is_available,
}
use rtems_examples.Complex1.Queue.Invariant.{all_succeed, IsValid, contents}
use rtems_examples.Complex1.Queue.Writes.{write-Written, write-Refused}
use rtems_examples.Complex1.Queue.Reads.{read-WasRead}
use rtems_examples.Complex1.Queue.Available.{
  released, released-IsValid, is_available-nil, is_available-cons,
}
use rtems_examples.Complex1.Server.{Message, Thread, Action, blink}
use rtems_examples.Complex1.System.{
  Event, calls, runs, Locals, act_on, read_message, round_behind, server_round, run_system,
}

-- What the rounds find in a queue that keeps at most `depth` messages and drops those beyond.
unfoldable pub found : ℕ → List Event → List Message → List (Option Message)
found depth [] vs = []
found depth (calls m ∷ events) vs =
    let kept = found depth events (vs ++ m ∷ []) in
    let dropped = found depth events vs in if ltb (length vs) depth then kept else dropped
found depth (runs ∷ events) [] = none ∷ found depth events []
found depth (runs ∷ events) (y ∷ ys) = some y ∷ found depth events ys

found_room :
    (depth : ℕ) (m : Message) (events : List Event) (vs : List Message)
    → length vs < depth
    → found depth (calls m ∷ events) vs ≡ found depth events (vs ++ m ∷ [])
unfolding found
found_room depth m events vs h = ground arith

found_full :
    (depth : ℕ) (m : Message) (events : List Event) (vs : List Message)
    → depth ≤ length vs
    → found depth (calls m ∷ events) vs ≡ found depth events vs
unfolding found
found_full depth m events vs h = ground arith

pub list_cases :
    (l : List Message) → (l ≡ []) ⊎ ((y : Message) × (ys : List Message) × (l ≡ y ∷ ys))
list_cases [] = inl refl
list_cases (y ∷ ys) = inr (y, ys, refl)

pub option_cases : (o : Option Thread) → (o ≡ none) ⊎ ((t : Thread) × (o ≡ some t))
option_cases none = inl refl
option_cases (some t) = inr (t, refl)

module _ (blank : Message) (storage : ℕ) (later : List Event) where
  -- A call that returns is followed by what stands behind it.
  pub after_call {κ μ} :
      {B : Type κ} {C : Type μ} (m : M Message B) (f : B → M Message C) (b : B)
      (q q' : Queue Message)
      → m q ≡ (returned b, q')
      → (m >>= f) q ≡ f b q'
  after_call m f b q q' e = ap (λ r. continue_with r f) e

  unfoldable pub run : List Event → Option Locals → Queue Message → Outcome (List Action)
  run events server q = (run_system all_succeed blank storage later events server q).0

  -- A call writes its message where there is room.
  pub record Called (m : Message) (q : Queue Message) : Type 0 where
    pub after : Queue Message
    pub valid : IsValid after
    pub same_depth : after.depth ≡ q.depth
    pub run_on :
        (events : List Event) (server : Option Locals)
        → run (calls m ∷ events) server q ≡ run events server after
    pub scheduled :
        (events : List Event)
        → found q.depth (calls m ∷ events) (contents q) ≡ found q.depth events (contents after)

  pub called : (m : Message) (q : Queue Message) → IsValid q → Called m q
  unfolding run run_system found
  called m q v = elim (dec_lt (length q.pending) q.depth) [
    | yes room ↦
        let w = write-Written blank none m q v room in
        record {
          after = w.after;
          valid = w.valid;
          same_depth = w.same_depth;
          run_on = λ events server.
              ap (λ r. r.0)
                (after_call (write all_succeed blank none m)
                  (λ status. run_system all_succeed blank storage later events server) true q
                  w.after w.result);
          scheduled = λ events.
              found_room q.depth m events (contents q) (rw (length-map q.pending q.cell) room)
              ∙ ap (found q.depth events) (sym w.appended);
        }
    | no full ↦
        let w = write-Refused blank none m q v (omega arith) in
        record {
          after = w.after;
          valid = w.valid;
          same_depth = w.same_depth;
          run_on = λ events server.
              ap (λ r. r.0)
                (after_call (write all_succeed blank none m)
                  (λ status. run_system all_succeed blank storage later events server) false q
                  w.after w.result);
          scheduled = λ events.
              found_full q.depth m events (contents q)
                (rw (length-map q.pending q.cell) (omega arith))
              ∙ ap (found q.depth events) (sym w.same);
        }
  ]

  -- A round of the loop that finds a message.
  pub record Served (m y : Message) (t : Thread) (ys : List Message) (q : Queue Message)
      : Type 0 where
    pub after : Queue Message
    pub valid : IsValid after
    pub same_depth : after.depth ≡ q.depth
    pub rest : contents after ≡ ys
    pub result : server_round all_succeed blank storage (m, t) q ≡ (returned (act_on y t), after)

  pub served :
      (m y : Message) (t : Thread) (ys : List Message) (q : Queue Message)
      → IsValid q
      → contents q ≡ y ∷ ys
      → Served m y t ys q
  unfolding server_round round_behind read_message
  served m y t ys q v e =
      let w = read-WasRead none storage [] (released q) y ys (released-IsValid q v) e in
      record {
        after = w.after;
        valid = w.valid;
        same_depth = w.same_depth;
        rest = w.rest;
        result =
            after_call (is_available all_succeed)
              (λ b. round_behind all_succeed blank storage b (m, t)) true q (released q)
              (is_available-cons q y ys v e)
            ∙ after_call (read all_succeed [] storage none)
                (λ received. pure (act_on (read_message received m) t)) (some y) (released q)
                w.after w.result;
      }

  pub idle_round :
      (m : Message) (t : Thread) (q : Queue Message)
      → IsValid q
      → contents q ≡ []
      → server_round all_succeed blank storage (m, t) q
        ≡ (returned (some ((m, (blink t).0), (blink t).1)), released q)
  unfolding server_round round_behind
  idle_round m t q v e =
      after_call (is_available all_succeed) (λ b. round_behind all_succeed blank storage b (m, t))
        false q (released q) (is_available-nil q v e)
