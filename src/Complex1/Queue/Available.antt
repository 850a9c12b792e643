-- ===== src/Complex1/Queue/Available.antt =====
-- `IsAvailable` of led/complex1/LocalMessageQueuePOSIX10031c.h on a well-formed queue.
use rtems_examples.Common.{
  suc, ◌≡◌, refl, true, false, not, List, [], ◌∷◌, ◌==◌, arith, ap, sym, ◌∙◌,
}
use rtems_examples.Common.Lists.{length, length-map}
use rtems_examples.Complex1.Queue.{Queue, returned, is_available}
use rtems_examples.Complex1.Queue.Invariant.{all_succeed, IsValid, contents}

module _ {ℓ} {A : Type ℓ} where
  -- The mutex is free after the call, and nothing else changes.
  abbrev pub released : Queue A → Queue A
  released q = record q { locked = false }

  pub released-IsValid : (q : Queue A) → IsValid q → IsValid (released q)
  released-IsValid q v = record {
    single = v.single;
    made = v.made;
    not_null = v.not_null;
    ahead = v.ahead;
    free = refl;
  }

  available :
      (q : Queue A)
      → IsValid q
      → is_available all_succeed q ≡ (returned (not (length q.pending == 0)), released q)
  unfolding is_available
  available q v = rw v.free refl

  pub is_available-nil :
      (q : Queue A)
      → IsValid q
      → contents q ≡ []
      → is_available all_succeed q ≡ (returned false, released q)
  is_available-nil q v e =
      let empty : length q.pending ≡ 0 = sym (length-map q.pending q.cell) ∙ ap length e in
      let test : not (length q.pending == 0) ≡ false = ground arith in
      available q v ∙ ap (λ b. (returned b, released q)) test

  pub is_available-cons :
      (q : Queue A) (y : A) (ys : List A)
      → IsValid q
      → contents q ≡ y ∷ ys
      → is_available all_succeed q ≡ (returned true, released q)
  is_available-cons q y ys v e =
      let some_left : length q.pending ≡ suc (length ys) =
        sym (length-map q.pending q.cell) ∙ ap length e in
      let test : not (length q.pending == 0) ≡ true = ground arith in
      available q v ∙ ap (λ b. (returned b, released q)) test
