-- ===== src/Regulator/Steps.antt =====
-- misc/regulator/regulator_example.c: the body of the inner loop with a library that keeps its
-- promises.
use rtems_examples.Common.{
  ℕ, ◌+◌, ◌≤◌, ◌<◌, ◌≡◌, ◌≢◌, ◌∙◌, sym, ap, arith, not, [], ◌∷◌, ◌++◌, ◌==◌,
}
use rtems_examples.Common.Lists.{length}
use mathlib.Core.List.{append-nil}
use rtems_examples.Regulator.Library.{Operations, IsRegulator}
use rtems_examples.Regulator.{
  text, State, ◌>>=◌, ◌>>◌, assert, call, copy, fill_and_send, send_message, example_attributes,
}
use rtems_examples.Regulator.Messages.{heard, messages, messages_step, text_short, snprintf-text}
use rtems_examples.Regulator.Calls.{
  Goes, goes_bind, goes_on, assert_ok, assert_some, assert_last, Sent, moves,
}

module _ {S : Type 0} (os : Operations S) (r : IsRegulator os) (clock : ℕ → ℕ × ℕ × ℕ)
    (readable : (n : ℕ) → (clock n).0 ≡ 0) where
  room_left :
      (n k : ℕ) (s : State S)
      → k < 10
      → Sent os r clock n 0 k s
      → r.outstanding s.library < (r.attributes s.library).maximum_messages
  unfolding example_attributes
  room_left n k s room v = omega (arith, v.bounded, ap (λ a. a.maximum_messages) v.same)

  fitting :
      (len : ℕ) (s : State S) (n held k : ℕ)
      → len ≤ 32
      → Sent os r clock n held k s
      → len ≤ (r.attributes s.library).maximum_message_size
  unfolding example_attributes
  fitting len s n held k fits v = omega (arith, fits, ap (λ a. a.maximum_message_size) v.same)

  obtained :
      (n k : ℕ) (s : State S)
      → k < 10
      → Sent os r clock n 0 k s
      → Goes os r clock
          (call os clock os.obtain_buffer s)
          (os.obtain_buffer s.library).result
          (Sent os r clock n 1 (k + 1))
  obtained n k s room v =
      let (ok, some_buffer, same, out, wait) =
        r.obtain_buffer_lem s.library (room_left n k s room v) in
      moves os r clock readable os.obtain_buffer s n n 0 1 k (k + 1) 1 [] v same out
        (wait ∙ sym (append-nil (r.waiting s.library))) (append-nil (messages n)) (omega arith)
        (omega (arith, out, v.bounded))

  copied :
      (b n k : ℕ) (s : State S)
      → Sent os r clock n 1 k s
      → Sent os r clock n 1 k (record s { library = os.strcpy b (text n) s.library })
  copied b n k s v =
      let (same, out, wait, content) = r.strcpy_lem b (text n) s.library in
      record {
        same = same ∙ v.same;
        buffers = out ∙ v.buffers ∙ ap (λ w. length w + 1) (sym wait);
        bounded = omega (arith, out, v.bounded);
        in_order = ap (λ w. heard s.seen.lines ++ w) wait ∙ v.in_order;
        counted = v.counted;
      }

  sends :
      (b n k len : ℕ) (s : State S)
      → b ≢ 0
      → len ≤ 32
      → r.content s.library b ≡ text n
      → Sent os r clock n 1 k s
      → Goes os r clock
          (call os clock (os.send b len) s)
          (os.send b len s.library).result
          (Sent os r clock (n + 1) 0 k)
  sends b n k len s some_buffer fits content v =
      let (ok, same, out, wait) =
        r.send_lem b len s.library some_buffer (fitting len s n 1 k fits v)
          (omega (arith, v.buffers)) in
      moves os r clock readable (os.send b len) s n (n + 1) 1 0 k k 0 (r.content s.library b ∷ []) v
        same (omega (arith, out)) wait (ap (λ t. messages n ++ t ∷ []) content ∙ messages_step n)
        (omega arith) (omega (arith, out, v.bounded))

  filled :
      (n k b : ℕ) (s : State S)
      → b ≢ 0
      → Sent os r clock n 1 k s
      → Goes os r clock (fill_and_send os clock n b s) tt (Sent os r clock (n + 1) 0 k)
  unfolding fill_and_send copy
  filled n k b s some_buffer v =
      let ready = record s { library = os.strcpy b (text n) s.library } in
      let len = length (text n) in
      let content = (r.strcpy_lem b (text n) s.library).3 in
      let status = (os.send b len ready.library).result in
      let copy_sent = copied b n k s v in
      let fits = fitting len ready n 1 k (omega (arith, text_short n)) copy_sent in
      goes_on os r clock (fill_and_send os clock n b s)
        ((call os clock (os.send b len) >>= λ sent. assert (sent == 0)) ready) tt
        (ap
          (λ p.
            (call os clock (os.send b p.1) >>= λ sent. assert (sent == 0))
              (record s { library = os.strcpy b p.0 s.library }))
          (snprintf-text n))
        (goes_bind os r clock (call os clock (os.send b len)) (λ sent. assert (sent == 0))
          (os.send b len ready.library).result tt ready
          (sends b n k len ready some_buffer (omega (arith, text_short n)) content copy_sent)
          (λ s' v'. record {
            after = s';
            result =
                assert_last os r clock status s'
                  (r.send_lem b len ready.library some_buffer fits
                    (omega (arith, copy_sent.buffers))).0;
            holds = v';
          }))

  pub message_sent :
      (n k : ℕ) (s : State S)
      → k < 10
      → Sent os r clock n 0 k s
      → Goes os r clock (send_message os clock n s) tt (Sent os r clock (n + 1) 0 (k + 1))
  unfolding send_message
  message_sent n k s room v =
      let (sc, b) = (os.obtain_buffer s.library).result in
      let (ok, some_buffer, same, out, wait) =
        r.obtain_buffer_lem s.library (room_left n k s room v) in
      goes_bind os r clock (call os clock os.obtain_buffer)
        (λ p. assert (p.0 == 0) >> (assert (not (p.1 == 0)) >> fill_and_send os clock n p.1))
        (sc, b) tt s (obtained n k s room v)
        (λ s' v'.
          goes_on os r clock
            ((assert (sc == 0) >> (assert (not (b == 0)) >> fill_and_send os clock n b)) s')
            (fill_and_send os clock n b s') tt
            (assert_ok os r clock sc (assert (not (b == 0)) >> fill_and_send os clock n b) s' ok
              ∙ assert_some os r clock b (fill_and_send os clock n b) s' some_buffer)
            (filled n (k + 1) b s' some_buffer v'))
