-- ===== src/Regulator/Calls.antt =====
-- misc/regulator/regulator_example.c: calls of a library that keeps its promises, and the messages
-- that it hands to the deliverer meanwhile.
use rtems_examples.Common.{
  ℕ, zero, suc, ◌+◌, ◌≤◌, ◌≡◌, ◌≢◌, refl, ◌∙◌, sym, ap, ap₂, subst, arith, false, not, Option, some,
  List, [], ◌∷◌, ◌++◌, ◌==◌,
}
use rtems_examples.Common.Lists.{length, length-append}
use mathlib.Core.List.{append_assoc, append-nil}
use rtems_examples.Regulator.Library.{Text, Operations, IsRegulator, Call}
use rtems_examples.Regulator.{
  message_line, Seen, State, M, deliver, ◌>>=◌, ◌>>◌, continue_with, assert, handed_over, call,
  example_attributes, example_deliverer,
}
use rtems_examples.Regulator.Messages.{heard, heard-append, messages}

module _ {S : Type 0} (os : Operations S) (r : IsRegulator os) (clock : ℕ → ℕ × ℕ × ℕ) where
  -- A part of the program that goes on with `b`, in a state with `P`.
  pub record Goes {B : Type 0} (o : Option (B × State S)) (b : B) (P : State S → Type 0)
      : Type 0 where
    pub after : State S
    pub result : o ≡ some (b, after)
    pub holds : P after

  pub goes_bind :
      {B C : Type 0} {P Q : State S → Type 0} (m : M S B) (f : B → M S C) (b : B) (c : C)
      (s : State S)
      → Goes (m s) b P
      → ((s' : State S) → P s' → Goes (f b s') c Q)
      → Goes ((m >>= f) s) c Q
  goes_bind m f b c s g k =
      let h = k g.after g.holds in
      record {
        after = h.after;
        result = ap (λ o. continue_with o f) g.result ∙ h.result;
        holds = h.holds;
      }

  pub goes_on :
      {B : Type 0} {P : State S → Type 0} (o o' : Option (B × State S)) (b : B)
      → o ≡ o'
      → Goes o' b P
      → Goes o b P
  goes_on o o' b e g = record { after = g.after; result = e ∙ g.result; holds = g.holds }

  pub assert_ok :
      {C : Type 0} (sc : ℕ) (k : M S C) (s : State S) → sc ≡ 0 → (assert (sc == 0) >> k) s ≡ k s
  assert_ok sc k s e = rw e refl

  pub assert_some :
      {C : Type 0} (b : ℕ) (k : M S C) (s : State S) → b ≢ 0 → (assert (not (b == 0)) >> k) s ≡ k s
  assert_some zero k s h = absurd (h refl)
  assert_some (suc b) k s h = let e : (suc b == 0) ≡ false = ground arith in rw e refl

  pub assert_last : (sc : ℕ) (s : State S) → sc ≡ 0 → assert (sc == 0) s ≡ some (tt, s)
  assert_last sc s e = rw e refl

  -- `n` messages are sent, at most `most` buffers are in use, and `held` of them by the program.
  pub record Sent (n held most : ℕ) (s : State S) : Type 0 where
    pub same : r.attributes s.library ≡ example_attributes os clock
    pub buffers : r.outstanding s.library ≡ length (r.waiting s.library) + held
    pub bounded : r.outstanding s.library ≤ most
    pub in_order : heard s.seen.lines ++ r.waiting s.library ≡ messages n
    pub counted : s.seen.delivered ≡ length (heard s.seen.lines) + 1

  module _ (readable : (n : ℕ) → (clock n).0 ≡ 0) where
    record Printed (handed : List Text) (seen : Seen) : Type 0 where
      after : Seen
      result : deliver clock handed seen ≡ some after
      lines : heard after.lines ≡ heard seen.lines ++ handed
      count : after.delivered ≡ seen.delivered + length handed

    heard_one : (t : Text) (seen : Seen) → Seen
    heard_one t seen = record {
      delivered = seen.delivered + 1;
      lines = seen.lines ++ message_line (clock seen.delivered).1 (clock seen.delivered).2 t ∷ [];
    }

    delivers_one :
        (t : Text) (rest : List Text) (seen : Seen)
        → deliver clock (t ∷ rest) seen ≡ deliver clock rest (heard_one t seen)
    unfolding deliver heard_one example_deliverer
    delivers_one t rest seen = ground (arith, readable seen.delivered)

    printed : (handed : List Text) (seen : Seen) → Printed handed seen
    unfolding deliver heard_one heard
    printed [] seen = record {
      after = seen;
      result = refl;
      lines = sym (append-nil (heard seen.lines));
      count = omega arith;
    }
    printed (t ∷ rest) seen =
        let p = printed rest (heard_one t seen) in
        record {
          after = p.after;
          result = delivers_one t rest seen ∙ p.result;
          lines =
              p.lines
              ∙ ap (λ l. l ++ rest)
                  (heard-append seen.lines
                    (message_line (clock seen.delivered).1 (clock seen.delivered).2 t ∷ []))
              ∙ append_assoc (heard seen.lines) (t ∷ []) rest;
          count = omega (arith, p.count);
        }

    -- A call of the library goes on, and what it hands over is printed.
    pub record Calls {B : Type 0} (f : Call S B) (s after : State S) : Type 0 where
      pub result : call os clock f s ≡ some ((f s.library).result, after)
      pub library : after.library ≡ (f s.library).after
      pub lines : heard after.seen.lines ≡ heard s.seen.lines ++ (f s.library).handed
      pub count : after.seen.delivered ≡ s.seen.delivered + length (f s.library).handed

    pub calls_on : {B : Type 0} (f : Call S B) (s : State S) → (after : State S) × Calls f s after
    unfolding call handed_over
    calls_on f s =
        let p = printed (f s.library).handed s.seen in
        (
          record { library = (f s.library).after; seen = p.after },
          record {
            result =
                ap (λ o. handed_over os clock o (f s.library).result (f s.library).after) p.result;
            library = refl;
            lines = p.lines;
            count = p.count;
          },
        )

    -- A call that hands over what was sent first keeps the messages in order.
    pub moves :
        {B : Type 0} (f : Call S B) (s : State S) (n n' held held' most most' taken : ℕ)
        (new : List Text)
        → Sent n held most s
        → r.attributes (f s.library).after ≡ r.attributes s.library
        → r.outstanding (f s.library).after + length (f s.library).handed
          ≡ r.outstanding s.library + taken
        → (f s.library).handed ++ r.waiting (f s.library).after ≡ r.waiting s.library ++ new
        → messages n ++ new ≡ messages n'
        → held + taken ≡ held' + length new
        → r.outstanding (f s.library).after ≤ most'
        → Goes (call os clock f s) (f s.library).result (Sent n' held' most')
    moves f s n n' held held' most most' taken new v same out wait numbered balance bound =
        let (after, c) = calls_on f s in
        let at_end : r.waiting after.library ≡ r.waiting (f s.library).after =
          ap r.waiting c.library in
        record {
          after = after;
          result = c.result;
          holds = record {
            same = ap r.attributes c.library ∙ same ∙ v.same;
            buffers =
                ap r.outstanding c.library
                ∙ omega (
                  arith,
                  v.buffers,
                  out,
                  ap length wait,
                  balance,
                  length-append {0} (f s.library).handed (r.waiting (f s.library).after),
                  length-append {0} (r.waiting s.library) new,
                )
                ∙ ap (λ l. length l + held') (sym at_end);
            bounded = subst (λ o. o ≤ most') (sym (ap r.outstanding c.library)) bound;
            in_order =
                ap₂ (λ l w. l ++ w) c.lines at_end
                ∙ append_assoc (heard s.seen.lines) (f s.library).handed
                    (r.waiting (f s.library).after)
                ∙ ap (λ w. heard s.seen.lines ++ w) wait
                ∙ sym (append_assoc (heard s.seen.lines) (r.waiting s.library) new)
                ∙ ap (λ l. l ++ new) v.in_order
                ∙ numbered;
            counted = omega (
              arith,
              c.count,
              v.counted,
              ap length c.lines,
              length-append {0} (heard s.seen.lines) (f s.library).handed,
            );
          };
        }
