-- ===== src/Regulator/Bursts.antt =====
-- misc/regulator/regulator_example.c with a library that keeps its promises: every message is
-- sent, and the deliverer prints them in order.
use rtems_examples.Common.{
  ℕ, zero, suc, ◌+◌, ◌*◌, ◌≤◌, ◌≡◌, refl, ◌∙◌, sym, ap, subst, arith, some, [], ◌∷◌, ◌++◌,
}
use rtems_examples.Common.Lists.{length}
use mathlib.Core.List.{append-nil}
use rtems_examples.Regulator.Library.{Operations, IsRegulator}
use rtems_examples.Regulator.{
  Line, burst_line, State, ◌>>=◌, ◌>>◌, put_line, call, send_message, send_burst, send_bursts,
  milliseconds_to_ticks, example_attributes,
}
use rtems_examples.Regulator.Messages.{heard, heard-append, messages}
use rtems_examples.Regulator.Calls.{Goes, goes_bind, Sent, moves}
use rtems_examples.Regulator.Steps.{message_sent}

module _ {S : Type 0} (os : Operations S) (r : IsRegulator os) (clock : ℕ → ℕ × ℕ × ℕ)
    (readable : (n : ℕ) → (clock n).0 ≡ 0) where
  same_sent :
      (n n' k k' : ℕ) (s : State S)
      → n ≡ n'
      → k ≤ k'
      → Sent os r clock n 0 k s
      → Sent os r clock n' 0 k' s
  same_sent n n' k k' s e h v = record {
    same = v.same;
    buffers = v.buffers;
    bounded = omega (arith, h, v.bounded);
    in_order = v.in_order ∙ ap messages e;
    counted = v.counted;
  }

  burst_sent :
      (left n k : ℕ) (s : State S)
      → k + left ≤ 10
      → Sent os r clock n 0 k s
      → Goes os r clock (send_burst os clock left n s) (n + left) (Sent os r clock (n + left) 0 10)
  unfolding send_burst
  burst_sent zero n k s room v = record {
    after = s;
    result = ap (λ m. some (m, s)) (omega arith);
    holds = same_sent n (n + 0) k 10 s (omega arith) (omega (arith, room)) v;
  }
  burst_sent (suc left) n k s room v =
      let sum : n + 1 + left ≡ n + suc left = omega arith in
      subst (λ m. Goes os r clock (send_burst os clock (suc left) n s) m (Sent os r clock m 0 10))
        sum
        (goes_bind os r clock (send_message os clock n) (λ _. send_burst os clock left (n + 1)) tt
          (n + 1 + left) s (message_sent os r clock readable n k s (omega (arith, room)) v)
          (λ s' v'. burst_sent left (n + 1) (k + 1) s' (omega (arith, room)) v'))

  -- Five seconds have four whole periods, which deliver twelve messages.
  slept :
      (n k : ℕ) (s : State S)
      → k ≤ 12
      → Sent os r clock n 0 k s
      → Goes os r clock (call os clock (os.sleep 5) s) tt (Sent os r clock n 0 0)
  unfolding example_attributes milliseconds_to_ticks
  slept n k s few v =
      let period = ap (λ a. a.delivery_thread_period) v.same in
      let (same, out, wait, least) = r.sleep_lem 5 4 s.library (omega (arith, period)) in
      moves os r clock readable (os.sleep 5) s n n 0 0 k 0 0 [] v same (omega (arith, out))
        (wait ∙ sym (append-nil (r.waiting s.library))) (append-nil (messages n)) refl
        (omega (
          arith,
          out,
          least,
          v.buffers,
          v.bounded,
          ap (λ a. a.maximum_to_dequeue_per_period) v.same,
        ))

  pub put_line-Sent :
      (line : Line) (n k : ℕ) (s : State S)
      → heard (line ∷ []) ≡ []
      → Sent os r clock n 0 k s
      → Goes os r clock (put_line line s) tt (Sent os r clock n 0 k)
  put_line-Sent line n k s silent v =
      let lines : heard (s.seen.lines ++ line ∷ []) ≡ heard s.seen.lines =
        heard-append s.seen.lines (line ∷ [])
        ∙ ap (λ l. heard s.seen.lines ++ l) silent
        ∙ append-nil (heard s.seen.lines) in
      record {
        after = record s { seen = record s.seen { lines = s.seen.lines ++ line ∷ [] } };
        result = refl;
        holds = record {
          same = v.same;
          buffers = v.buffers;
          bounded = v.bounded;
          in_order = ap (λ l. l ++ r.waiting s.library) lines ∙ v.in_order;
          counted = v.counted ∙ ap (λ l. length l + 1) (sym lines);
        };
      }

  pub bursts_sent :
      (left burst n : ℕ) (s : State S)
      → Sent os r clock n 0 0 s
      → Goes os r clock
          (send_bursts os clock left burst n s)
          (n + 7 * left)
          (Sent os r clock (n + 7 * left) 0 0)
  unfolding send_bursts
  bursts_sent zero burst n s v = record {
    after = s;
    result = ap (λ m. some (m, s)) (omega arith);
    holds = same_sent n (n + 7 * 0) 0 0 s (omega arith) (omega arith) v;
  }
  bursts_sent (suc left) burst n s v =
      let sum : n + 7 + 7 * left ≡ n + 7 * suc left = omega arith in
      subst
        (λ m. Goes os r clock (send_bursts os clock (suc left) burst n s) m (Sent os r clock m 0 0))
        sum
        (goes_bind os r clock (put_line (burst_line burst))
          (λ _. send_burst os clock 7 n >>= λ sent.
            (call os clock (os.sleep 5) >> send_bursts os clock left (burst + 1) sent))
          tt (n + 7 + 7 * left) s (put_line-Sent (burst_line burst) n 0 s (unfold heard in refl) v)
          (λ s1 v1.
            goes_bind os r clock (send_burst os clock 7 n)
              (λ sent. call os clock (os.sleep 5) >> send_bursts os clock left (burst + 1) sent)
              (n + 7) (n + 7 + 7 * left) s1 (burst_sent 7 n 0 s1 (omega arith) v1)
              (λ s2 v2.
                goes_bind os r clock (call os clock (os.sleep 5))
                  (λ _. send_bursts os clock left (burst + 1) (n + 7)) tt (n + 7 + 7 * left) s2
                  (slept (n + 7) 10 s2 (omega arith) v2)
                  (λ s3 v3. bursts_sent left (burst + 1) (n + 7) s3 v3))))
