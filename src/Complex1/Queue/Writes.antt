-- ===== src/Complex1/Queue/Writes.antt =====
-- `Write` of led/complex1/MessageQueueT.h, with room in the queue and without.
use rtems_examples.Common.{
  ℕ, zero, suc, ◌+◌, ◌≤◌, ◌<◌, ◌≡◌, refl, ◌∙◌, ap, arith, Bool, true, false, Option, List, [], ◌∷◌,
  ◌++◌, leb,
}
use rtems_examples.Common.Lists.{length}
use rtems_examples.Complex1.Queue.{Queue, convert, Outcome, returned, write}
use rtems_examples.Complex1.Queue.Invariant.{
  all_succeed, count-append, IsValid, contents, update, contents-update, contents-snoc,
}

lt-leb : {a b : ℕ} → a < b → leb b a ≡ false
lt-leb h = ground arith

le-leb : {a b : ℕ} → b ≤ a → leb b a ≡ true
le-leb h = ground arith

module _ {ℓ} {A : Type ℓ} (blank : A) (hton : Option (A → A)) (x : A) where
  pub record Written (q : Queue A) (r : Outcome Bool × Queue A) : Type ℓ where
    pub after : Queue A
    pub result : r ≡ (returned true, after)
    pub appended : contents after ≡ contents q ++ convert hton x ∷ []
    pub valid : IsValid after
    pub same_depth : after.depth ≡ q.depth

  -- A `Write` to a full queue: nothing is queued, and the buffer that it took is in no list.
  pub record Refused (q : Queue A) (r : Outcome Bool × Queue A) : Type ℓ where
    pub after : Queue A
    pub result : r ≡ (returned false, after)
    pub same : contents after ≡ contents q
    pub valid : IsValid after
    pub same_depth : after.depth ≡ q.depth
    pub lost :
        after.fresh + length q.inactive + length q.pending
        ≡ q.fresh + length after.inactive + length after.pending + 1

  module _ (depth : ℕ) (locked : Bool) (cell : ℕ → A) where
    abbrev queue : ℕ → List ℕ → List ℕ → Queue A
    queue fresh inactive pending = record {
      depth = depth;
      inactive = inactive;
      pending = pending;
      locked = locked;
      fresh = fresh;
      cell = cell;
    }

    write_room :
        (fresh : ℕ) (inactive pending : List ℕ)
        → IsValid (queue fresh inactive pending)
        → length pending < depth
        → Written
            (queue fresh inactive pending)
            (write all_succeed blank hton x (queue fresh inactive pending))
    unfolding write
    write_room zero inactive pending v room = absurd (omega (arith, v.ahead))
    write_room (suc f) [] pending v room = record {
      after = record {
        depth = depth;
        inactive = [];
        pending = pending ++ suc f ∷ [];
        locked = false;
        fresh = suc f + 1;
        cell = update (update cell (suc f) blank) (suc f) (convert hton x);
      };
      result = rw (v.free, lt-leb room);
      appended =
          contents-snoc (update cell (suc f) blank) (suc f) (convert hton x) pending
            (omega (arith, v.made (suc f)))
          ∙ ap (λ l. l ++ convert hton x ∷ [])
              (contents-update cell (suc f) blank pending (omega (arith, v.made (suc f))));
      valid = record {
        single = λ a. grind (arith, v.single a, v.made a, count-append);
        made = λ a h. grind (arith, v.made a, count-append);
        not_null = grind (arith, v.not_null, count-append);
        ahead = omega arith;
        free = refl;
      };
      same_depth = refl;
    }
    write_room (suc f) (zero ∷ rest) pending v room = absurd (omega (arith, v.not_null))
    write_room (suc f) (suc b ∷ rest) pending v room = record {
      after = record {
        depth = depth;
        inactive = rest;
        pending = pending ++ suc b ∷ [];
        locked = false;
        fresh = suc f;
        cell = update cell (suc b) (convert hton x);
      };
      result = rw (v.free, lt-leb room);
      appended =
          contents-snoc cell (suc b) (convert hton x) pending (ground (arith, v.single (suc b)));
      valid = record {
        single = λ a. grind (arith, v.single a, v.made a, count-append);
        made = λ a h. grind (arith, v.made a, count-append);
        not_null = grind (arith, v.not_null, count-append);
        ahead = omega arith;
        free = refl;
      };
      same_depth = refl;
    }

    write_full :
        (fresh : ℕ) (inactive pending : List ℕ)
        → IsValid (queue fresh inactive pending)
        → depth ≤ length pending
        → Refused
            (queue fresh inactive pending)
            (write all_succeed blank hton x (queue fresh inactive pending))
    unfolding write
    write_full zero inactive pending v full = absurd (omega (arith, v.ahead))
    write_full (suc f) [] pending v full = record {
      after = record {
        depth = depth;
        inactive = [];
        pending = pending;
        locked = false;
        fresh = suc f + 1;
        cell = update (update cell (suc f) blank) (suc f) (convert hton x);
      };
      result = rw (v.free, le-leb full);
      same =
          contents-update (update cell (suc f) blank) (suc f) (convert hton x) pending
            (omega (arith, v.made (suc f)))
          ∙ contents-update cell (suc f) blank pending (omega (arith, v.made (suc f)));
      valid = record {
        single = v.single;
        made = λ a h. v.made a (omega arith);
        not_null = v.not_null;
        ahead = omega arith;
        free = refl;
      };
      same_depth = refl;
      lost = omega arith;
    }
    write_full (suc f) (zero ∷ rest) pending v full = absurd (omega (arith, v.not_null))
    write_full (suc f) (suc b ∷ rest) pending v full = record {
      after = record {
        depth = depth;
        inactive = rest;
        pending = pending;
        locked = false;
        fresh = suc f;
        cell = update cell (suc b) (convert hton x);
      };
      result = rw (v.free, le-leb full);
      same =
          contents-update cell (suc b) (convert hton x) pending (ground (arith, v.single (suc b)));
      valid = record {
        single = λ a. ground (arith, v.single a);
        made = λ a h. ground (arith, v.made a);
        not_null = ground (arith, v.not_null);
        ahead = omega arith;
        free = refl;
      };
      same_depth = refl;
      lost = omega arith;
    }

  -- With room in the queue `Write` returns true, and the converted value is behind all others.
  pub write-Written :
      (q : Queue A)
      → IsValid q
      → length q.pending < q.depth
      → Written q (write all_succeed blank hton x q)
  write-Written q v room = write_room q.depth q.locked q.cell q.fresh q.inactive q.pending v room

  -- With pthread calls that succeed, a well-formed full queue keeps its messages and the free mutex
  -- when `Write` returns false, and one more buffer is lost: it is neither pending nor in the pool.
  pub write-Refused :
      (q : Queue A)
      → IsValid q
      → q.depth ≤ length q.pending
      → Refused q (write all_succeed blank hton x q)
  write-Refused q v full = write_full q.depth q.locked q.cell q.fresh q.inactive q.pending v full
