-- ===== src/Blink/Condition/Signals.antt =====
-- The switches and the signals of posix_cond_server and ratemon_cond_server, whenever the signalling
-- task wakes.
use rtems_examples.Common.{ℕ, List, suc, ◌+◌, ◌≡◌, inl, inr, refl, ap, arith, ltb, Bool-cases, ◌^◌}
use rtems_examples.Common.Lists.{length}
use rtems_examples.Blink.{Led, by_count, DiffersFrom, Alternates}
use rtems_examples.Blink.Parity.{by_count-suc}
use rtems_examples.Blink.Condition.{
  Server, at_lock, at_wait, waiting, woken, overflowed, State, cond_signal, signal_step, serve_step,
  CanRun, Step, signals, serves, wakes, Reach, here, next,
}

-- The signals that woke the server and did not switch the LED yet.
abbrev pub in_hand : Server → ℕ
in_hand at_lock = 0
in_hand at_wait = 0
in_hand waiting = 0
in_hand woken = 1
in_hand overflowed = 0

-- What the server's count says of the switches; at the overflow the last switch is not counted.
abbrev pub Counted : Server → ℕ → List Led → Type 0
Counted at_lock count leds = (length leds ≡ count) × DiffersFrom (by_count count) leds
Counted at_wait count leds = (length leds ≡ count) × DiffersFrom (by_count count) leds
Counted waiting count leds = (length leds ≡ count) × DiffersFrom (by_count count) leds
Counted woken count leds = (length leds ≡ count) × DiffersFrom (by_count count) leds
Counted overflowed count leds = length leds ≡ suc count

pub record IsOrderly (s : State) : Type 0 where
  pub turns : Alternates s.leds
  pub counted : Counted s.server s.count s.leds
  pub accounted : s.signalled ≡ s.lost + length s.leds + in_hand s.server

signal-IsOrderly :
    (sv : Server) (s : State) → s.server ≡ sv → IsOrderly s → IsOrderly (signal_step s)
unfolding signal_step cond_signal
signal-IsOrderly at_lock s e k = rw e (record {
  turns = k.turns;
  counted = rw e at k.counted;
  accounted = let a = rw e at k.accounted in omega arith;
})
signal-IsOrderly at_wait s e k = rw e (record {
  turns = k.turns;
  counted = rw e at k.counted;
  accounted = let a = rw e at k.accounted in omega arith;
})
signal-IsOrderly waiting s e k = rw e (record {
  turns = k.turns;
  counted = rw e at k.counted;
  accounted = let a = rw e at k.accounted in omega arith;
})
signal-IsOrderly woken s e k = rw e (record {
  turns = k.turns;
  counted = rw e at k.counted;
  accounted = let a = rw e at k.accounted in omega arith;
})
signal-IsOrderly overflowed s e k = rw e (record {
  turns = k.turns;
  counted = rw e at k.counted;
  accounted = let a = rw e at k.accounted in omega arith;
})

serve-IsOrderly :
    (sv : Server) (s : State)
    → s.server ≡ sv
    → CanRun sv
    → IsOrderly s
    → IsOrderly (serve_step sv s)
unfolding serve_step
serve-IsOrderly at_lock s e c k = record {
  turns = k.turns;
  counted = rw e at k.counted;
  accounted = let a = rw e at k.accounted in omega arith;
}
serve-IsOrderly at_wait s e c k = record {
  turns = k.turns;
  counted = rw e at k.counted;
  accounted = let a = rw e at k.accounted in omega arith;
}
serve-IsOrderly waiting s e c k = elim c [ ]
serve-IsOrderly overflowed s e c k = elim c [ ]
serve-IsOrderly woken s e c k =
    let w = rw e at k.counted in
    let a = rw e at k.accounted in
    elim (Bool-cases (ltb (suc s.count) (2 ^ 31))) [
      | inl room ↦ rw room (record {
        turns = (w.1, k.turns);
        counted = (ap suc w.0, by_count-suc s.count);
        accounted = omega arith;
      })
      | inr full ↦
          rw full (record { turns = (w.1, k.turns); counted = ap suc w.0; accounted = omega arith })
    ]

Step-IsOrderly : {s t : State} → Step s t → IsOrderly s → IsOrderly t
Step-IsOrderly (signals s e) k = signal-IsOrderly s.server s refl k
Step-IsOrderly (serves s c) k = serve-IsOrderly s.server s refl c k
Step-IsOrderly (wakes s e) k = record {
  turns = k.turns;
  counted = k.counted;
  accounted = k.accounted;
}

pub Reach-IsOrderly : {s t : State} → IsOrderly s → Reach s t → IsOrderly t
Reach-IsOrderly k here = k
Reach-IsOrderly k (next r st) = Step-IsOrderly st (Reach-IsOrderly k r)
