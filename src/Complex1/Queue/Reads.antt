-- ===== src/Complex1/Queue/Reads.antt =====
-- `Read` of led/complex1/MessageQueueT.h, with a message pending and without.
use rtems_examples.Common.{
  ℕ, zero, suc, ◌≡◌, refl, ap, arith, Bool, true, false, ◌≢◌, Option, some, List, [], ◌∷◌, ◌++◌,
}
use rtems_examples.Complex1.Queue.{Queue, convert, Outcome, returned, stuck, read}
use rtems_examples.Complex1.Queue.Invariant.{all_succeed, count-append, IsValid, contents}

not_free : true ≢ false
not_free e = cc

module _ {ℓ} {A : Type ℓ} (ntoh : Option (A → A)) (storage : ℕ) (wakes : List (Queue A)) where
  pub record WasRead (q : Queue A) (y : A) (ys : List A) (r : Outcome (Option A) × Queue A)
      : Type ℓ where
    pub after : Queue A
    pub result : r ≡ (returned (some (convert ntoh y)), after)
    pub rest : contents after ≡ ys
    pub valid : IsValid after
    pub same_depth : after.depth ≡ q.depth

  module _ (depth fresh : ℕ) (cell : ℕ → A) (inactive : List ℕ) where
    abbrev queue : Bool → List ℕ → Queue A
    queue locked pending = record {
      depth = depth;
      inactive = inactive;
      pending = pending;
      locked = locked;
      fresh = fresh;
      cell = cell;
    }

    read_pending :
        (locked : Bool) (pending : List ℕ) (y : A) (ys : List A)
        → IsValid (queue locked pending)
        → contents (queue locked pending) ≡ y ∷ ys
        → WasRead
            (queue locked pending)
            y
            ys
            (read all_succeed wakes storage ntoh (queue locked pending))
    unfolding read
    read_pending true pending y ys v e = absurd (not_free v.free)
    read_pending false [] y ys v e = absurd (cc)
    read_pending false (zero ∷ ps) y ys v e = absurd (omega (arith, v.not_null))
    read_pending false (suc p ∷ ps) y ys v e = record {
      after = record {
        depth = depth;
        inactive = inactive ++ suc p ∷ [];
        pending = ps;
        locked = false;
        fresh = fresh;
        cell = cell;
      };
      result =
          (ap
            (λ z. (
              returned (some (convert ntoh z)),
              record {
                depth = depth;
                inactive = inactive ++ suc p ∷ [];
                pending = ps;
                locked = false;
                fresh = fresh;
                cell = cell;
              },
            ))
            first);
      rest = cc;
      valid = record {
        single = λ a. grind (arith, v.single a, v.made a, count-append);
        made = λ a h. grind (arith, v.made a, count-append);
        not_null = grind (arith, v.not_null, count-append);
        ahead = v.ahead;
        free = refl;
      };
      same_depth = refl;
    }
      where
        first : cell (suc p) ≡ y
        first = cc

    -- With nothing pending and nobody to send, `Read` waits for ever.
    read_empty :
        (locked : Bool) (pending : List ℕ)
        → locked ≡ false
        → contents (queue locked pending) ≡ []
        → (read all_succeed [] storage ntoh (queue locked pending)).0 ≡ stuck
    unfolding read
    read_empty true pending f e = absurd (not_free f)
    read_empty false [] f e = refl
    read_empty false (p ∷ ps) f e = cc

  -- A message that is pending is returned at once, converted, and its buffer goes to the pool.
  pub read-WasRead :
      (q : Queue A) (y : A) (ys : List A)
      → IsValid q
      → contents q ≡ y ∷ ys
      → WasRead q y ys (read all_succeed wakes storage ntoh q)
  read-WasRead q y ys v e =
      read_pending q.depth q.fresh q.cell q.inactive q.locked q.pending y ys v e

  pub read_stuck :
      (q : Queue A) → IsValid q → contents q ≡ [] → (read all_succeed [] storage ntoh q).0 ≡ stuck
  read_stuck q v e = read_empty q.depth q.fresh q.cell q.inactive q.locked q.pending v.free e
