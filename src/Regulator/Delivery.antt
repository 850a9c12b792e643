-- ===== src/Regulator/Delivery.antt =====
-- misc/regulator/regulator_example.c with a library that keeps its promises: it runs to its
-- end, and the deliverer prints all messages in order.
use rtems_examples.Common.{
  ℕ, ◌+◌, ◌<◌, ◌≡◌, refl, ◌∙◌, sym, ap, ap₂, arith, not, some, List, [], ◌∷◌, ◌++◌, ◌==◌,
}
use rtems_examples.Common.Lists.{length}
use mathlib.Core.List.{append-nil}
use rtems_examples.Regulator.Library.{Text, Operations, IsRegulator}
use rtems_examples.Regulator.{
  Line, start_line, end_line, statistics_line, State, M, pure, ◌>>=◌, ◌>>◌, assert, put_line, call,
  send_bursts, example_attributes, example_send_messages, test_regulator, start_state,
}
use rtems_examples.Regulator.Messages.{heard, heard-append, messages}
use rtems_examples.Regulator.Calls.{
  Goes, goes_bind, goes_on, assert_ok, assert_some, Sent, calls_on,
}
use rtems_examples.Regulator.Bursts.{bursts_sent}

nil_of_length : (l : List Text) → length l ≡ 0 → l ≡ []
nil_of_length [] e = refl
nil_of_length (t ∷ l) e = absurd (omega (arith, e))

fourteen : length (messages 14) + 1 ≡ 15
unfolding messages
fourteen = refl

module _ {S : Type 0} (os : Operations S) (r : IsRegulator os) (clock : ℕ → ℕ × ℕ × ℕ)
    (readable : (n : ℕ) → (clock n).0 ≡ 0) where
  -- What the console and the count say in the end.
  pub record Complete (s : State S) : Type 0 where
    pub shown : heard s.seen.lines ≡ messages 14
    pub count : s.seen.delivered ≡ 15

  all_delivered : (s : State S) → Sent os r clock 14 0 0 s → Complete s
  all_delivered s v =
      let none_waits : r.waiting s.library ≡ [] =
        nil_of_length (r.waiting s.library) (omega (arith, v.buffers, v.bounded)) in
      let shown : heard s.seen.lines ≡ messages 14 =
        sym (append-nil (heard s.seen.lines))
        ∙ ap (λ w. heard s.seen.lines ++ w) (sym none_waits)
        ∙ v.in_order in
      record { shown = shown; count = v.counted ∙ ap (λ l. length l + 1) shown ∙ fourteen }

  some_room : 0 < (example_attributes os clock).maximum_messages
  unfolding example_attributes
  some_room = omega arith

  created :
      (s : State S)
      → heard s.seen.lines ≡ []
      → s.seen.delivered ≡ 1
      → Goes os r clock
          (call os clock (os.create (example_attributes os clock)) s)
          (os.create (example_attributes os clock) s.library).result
          (Sent os r clock 0 0 0)
  created s nothing one =
      let attributes = example_attributes os clock in
      let room = some_room in
      let (ok, regulator, silent, same, out, wait) = r.create_lem attributes s.library room in
      let (after, c) = calls_on os r clock readable (os.create attributes) s in
      let lines : heard after.seen.lines ≡ [] = c.lines ∙ ap₂ (λ l k. l ++ k) nothing silent in
      let waiting : r.waiting after.library ≡ [] = ap r.waiting c.library ∙ wait in
      record {
        after = after;
        result = c.result;
        holds = record {
          same = ap r.attributes c.library ∙ same;
          buffers = ap r.outstanding c.library ∙ out ∙ ap (λ w. length w + 0) (sym waiting);
          bounded = omega (arith, ap r.outstanding c.library, out);
          in_order = ap₂ (λ l k. l ++ k) lines waiting ∙ unfold messages in refl;
          counted = omega (arith, c.count, one, ap length silent, ap length lines);
        };
      }

  all_sent :
      (s : State S)
      → heard s.seen.lines ≡ []
      → s.seen.delivered ≡ 1
      → Goes os r clock (example_send_messages os clock s) tt (Sent os r clock 14 0 0)
  unfolding example_send_messages
  all_sent s nothing one =
      let attributes = example_attributes os clock in
      let (sc, regulator) = (os.create attributes s.library).result in
      let (ok, some_regulator, silent, same, out, wait) =
        r.create_lem attributes s.library some_room in
      let send : M S (Unit {0}) = send_bursts os clock 2 0 0 >>= λ msg. pure tt in
      goes_bind os r clock (call os clock (os.create attributes))
        (λ p. assert (p.0 == 0) >> (assert (not (p.1 == 0)) >> send)) (sc, regulator) tt s
        (created s nothing one)
        (λ s1 v1.
          goes_on os r clock ((assert (sc == 0) >> (assert (not (regulator == 0)) >> send)) s1)
            (send s1) tt
            (assert_ok os r clock sc (assert (not (regulator == 0)) >> send) s1 ok
              ∙ assert_some os r clock regulator send s1 some_regulator)
            (goes_bind os r clock (send_bursts os clock 2 0 0) (λ msg. pure tt) 14 tt s1
              (bursts_sent os r clock readable 2 0 0 s1 v1)
              (λ s2 v2. record { after = s2; result = refl; holds = v2 })))

  with_line : Line → State S → State S
  with_line line s = record s { seen = record s.seen { lines = s.seen.lines ++ line ∷ [] } }

  with_line-Complete :
      (line : Line) (s : State S)
      → heard (line ∷ []) ≡ []
      → Complete s
      → Complete (with_line line s)
  unfolding with_line
  with_line-Complete line s silent done = record {
    shown =
        heard-append s.seen.lines (line ∷ [])
        ∙ ap (λ l. heard s.seen.lines ++ l) silent
        ∙ append-nil (heard s.seen.lines)
        ∙ done.shown;
    count = done.count;
  }

  -- The status of the statistics, and the lines at the end.
  ended :
      (s : State S)
      → Sent os r clock 14 0 0 s
      → Goes os r clock
          ((call os clock os.get_statistics >>= λ p.
              assert (p.0 == 0) >> (put_line (statistics_line p.1) >> put_line end_line))
            s)
          tt
          Complete
  ended s v =
      let (after, c) = calls_on os r clock readable os.get_statistics s in
      let (ok, silent) = r.get_statistics_lem s.library in
      let done = all_delivered s v in
      let (sc, stats) = (os.get_statistics s.library).result in
      let behind : M S (Unit {0}) = put_line (statistics_line stats) >> put_line end_line in
      goes_bind os r clock (call os clock os.get_statistics)
        (λ p. assert (p.0 == 0) >> (put_line (statistics_line p.1) >> put_line end_line))
        (sc, stats) tt s
        (record {
          after = after;
          result = c.result;
          holds = record {
            shown = c.lines ∙ ap₂ (λ l k. l ++ k) done.shown silent ∙ append-nil (messages 14);
            count = omega (arith, c.count, done.count, ap length silent);
          };
        })
        (λ s' done'.
          goes_on os r clock ((assert (sc == 0) >> behind) s') (behind s') tt
            (assert_ok os r clock sc behind s' ok)
            (record {
              after = with_line end_line (with_line (statistics_line stats) s');
              result = unfold with_line in refl;
              holds =
                  with_line-Complete end_line (with_line (statistics_line stats) s')
                    (unfold heard in refl)
                    (with_line-Complete (statistics_line stats) s' (unfold heard in refl) done');
            }))

  -- With a regulator that keeps its promises and a clock that can be read, no assertion of the
  -- example fails, and when it ends the deliverer has printed the messages 0 to 13, in order.
  pub test_regulator-Complete :
      (library : S)
      → (after : State S) × (test_regulator os clock (start_state library) ≡ some (tt, after))
        × Complete after
  unfolding test_regulator
  test_regulator-Complete library =
      let first = record (start_state library) {
        seen = record { delivered = 1; lines = start_line ∷ [] };
      } in
      let g =
        goes_bind os r clock (example_send_messages os clock)
          (λ _. call os clock os.get_statistics >>= λ p.
            assert (p.0 == 0) >> (put_line (statistics_line p.1) >> put_line end_line))
          tt tt first (all_sent first (unfold heard in refl) refl) (λ s v. ended s v) in
      (g.after, g.result, g.holds)
