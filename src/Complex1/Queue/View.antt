-- ===== src/Complex1/Queue/View.antt =====
-- The queue of led/complex1 up to what can be seen of it: well-formed queues that give the same
-- answers are one.
use rtems_examples.Common.{
  ℕ, ◌+◌, ◌≤◌, ◌<◌, ◌≡◌, refl, ap, ap₂, ◌∙◌, arith, false, List, [], ◌∷◌, ◌==◌, if◌then◌else◌,
}
use rtems_examples.Common.Lists.{length}
use native.Mathlib.Nat.{ℕ_set}
use mathlib.Core.List.{map, is_set}
use mathlib.Core.HLevel.{Σ_set}
use mathlib.Core.Quot
use mathlib.Core.Quot.{Quot, Quot-set}
use mathlib.Core.Equiv.{Iso}
use rtems_examples.Complex1.Queue.{Queue}
use rtems_examples.Complex1.Queue.Invariant.{IsValid, contents, count}
use rtems_examples.Complex1.Queue.Abstract.{SameAnswers, SameAnswers-SameView}

module _ {ℓ} {A : Type ℓ} (blank : A) where
  -- Buffers for the messages at the addresses from `p` on.
  addresses : ℕ → List A → List ℕ
  addresses p [] = []
  addresses p (v ∷ vs) = p ∷ addresses (p + 1) vs

  cells : ℕ → List A → ℕ → A
  cells p [] a = blank
  cells p (v ∷ vs) a = if a == p then v else cells (p + 1) vs a

  count_below : (a p : ℕ) (vs : List A) → a < p → count a (addresses p vs) ≡ 0
  unfolding addresses
  count_below a p [] h = refl
  count_below a p (v ∷ vs) h = ground (arith, count_below a (p + 1) vs)

  count_above : (a p : ℕ) (vs : List A) → p + length vs ≤ a → count a (addresses p vs) ≡ 0
  unfolding addresses
  count_above a p [] h = refl
  count_above a p (v ∷ vs) h = ground (arith, count_above a (p + 1) vs)

  count_once : (a p : ℕ) (vs : List A) → count a (addresses p vs) ≤ 1
  unfolding addresses
  count_once a p [] = omega arith
  count_once a p (v ∷ vs) = ground (arith, count_once a (p + 1) vs, count_below a (p + 1) vs)

  same_above :
      (f : ℕ → A) (v : A) (b p : ℕ) (vs : List A)
      → b < p
      → map (λ a. if a == b then v else f a) (addresses p vs) ≡ map f (addresses p vs)
  unfolding addresses
  same_above f v b p [] h = refl
  same_above f v b p (w ∷ vs) h = ap₂ ◌∷◌ (ground arith) (same_above f v b (p + 1) vs (omega arith))

  map-cells : (p : ℕ) (vs : List A) → map (cells p vs) (addresses p vs) ≡ vs
  unfolding addresses cells
  map-cells p [] = refl
  map-cells p (v ∷ vs) =
      ap₂ ◌∷◌ (ground arith)
        (same_above (cells (p + 1) vs) v p (p + 1) vs (omega arith) ∙ map-cells (p + 1) vs)

module _ {ℓ} {A : Type ℓ} (blank : A) (storage : ℕ) where
  -- The objects of the class that are well-formed.
  abbrev pub ValidQueue : Type ℓ
  ValidQueue = (q : Queue A) × IsValid q

  -- Those that give the same answers to all sequences of writes and reads are one.
  abbrev pub SeenQueue : Type ℓ
  SeenQueue = Quot (λ (v w : ValidQueue). SameAnswers blank storage v.0 w.0)

  -- A queue of a depth with messages.
  holding : ℕ → List A → ValidQueue
  holding depth vs = (
    record {
      depth = depth;
      inactive = [];
      pending = addresses blank 1 vs;
      locked = false;
      fresh = length vs + 1;
      cell = cells blank 1 vs;
    },
    record {
      single = λ a. omega (arith, count_once blank a 1 vs);
      made = λ a h. omega (arith, count_above blank a 1 vs (omega (arith, h)));
      not_null = omega (arith, count_below blank 0 1 vs (omega arith));
      ahead = omega arith;
      free = refl;
    },
  )

  -- What can be seen: the depth and the messages.
  pub view : IsSet A → SeenQueue → ℕ × List A
  view s =
      Quot.lift (Σ_set ℕ_set (λ n. is_set s)) (λ v. (v.0.depth, contents v.0))
        (λ v w h.
          let e = (SameAnswers-SameView blank storage v.0 w.0 v.1 w.1).0 h in
          ap₂ (λ d l. (d, l)) e.0 e.1)

  seen_iso : IsSet A → Iso SeenQueue (ℕ × List A)
  unfolding view holding
  seen_iso s = record {
    fun = view s;
    inv = λ p. Quot.mk (holding p.0 p.1);
    rinv = λ p. ap (λ l. (p.0, l)) (map-cells blank 1 p.1);
    linv =
        Quot.ind (λ b. Quot-set _ _)
          (λ v. Quot.sound (
            (SameAnswers-SameView blank storage (holding v.0.depth (contents v.0)).0 v.0
                (holding v.0.depth (contents v.0)).1 v.1).1
              (refl, map-cells blank 1 (contents v.0))));
  }
