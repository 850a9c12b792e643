-- ===== src/Complex1/Queue/Invariant.antt =====
-- Well-formed queues: every buffer is in at most one list, at most once, and `new` is ahead of all.
use rtems_examples.Common.{
  ℕ, ◌+◌, ◌≤◌, ◌<◌, ◌≡◌, refl, ap₂, ◌∙◌, arith, false, List, [], ◌∷◌, ◌++◌, if◌then◌else◌, ◌==◌,
}
use mathlib.Core.List.{map, map-append}
use rtems_examples.Complex1.Queue.{Queue, Os}

-- The pthread calls all succeed.
abbrev pub all_succeed : Os
all_succeed = record { lock_status = 0; unlock_status = 0; signal_status = 0; wait_status = 0 }

-- How often an address stands in a list.
abbrev pub count : ℕ → List ℕ → ℕ
count a [] = 0
count a (x ∷ xs) = (if a == x then 1 else 0) + count a xs

pub count-append : (a : ℕ) (xs ys : List ℕ) → count a (xs ++ ys) ≡ count a xs + count a ys
count-append a [] ys = omega arith
count-append a (x ∷ xs) ys = ground (arith, count-append a xs ys)

module _ {ℓ} {A : Type ℓ} where
  -- Each address is owned once at most, and those from `fresh` on and NULL are not owned; the
  -- mutex is not locked.
  pub record IsValid (q : Queue A) : Type ℓ where
    pub single : (a : ℕ) → count a q.inactive + count a q.pending ≤ 1
    pub made : (a : ℕ) → q.fresh ≤ a → count a q.inactive + count a q.pending ≡ 0
    pub not_null : count 0 q.inactive + count 0 q.pending ≡ 0
    pub ahead : 0 < q.fresh
    pub free : q.locked ≡ false

  -- The values in the order in which they will be received.
  abbrev pub contents : Queue A → List A
  contents q = map q.cell q.pending

  abbrev pub update : (ℕ → A) → ℕ → A → ℕ → A
  update cell p v i = if i == p then v else cell i

  -- A write to a buffer that no pending message uses changes no pending message.
  pub contents-update :
      (cell : ℕ → A) (p : ℕ) (v : A) (ps : List ℕ)
      → count p ps ≡ 0
      → map (update cell p v) ps ≡ map cell ps
  contents-update cell p v [] h = refl
  contents-update cell p v (x ∷ ps) h =
      ap₂ ◌∷◌ (ground arith) (contents-update cell p v ps (ground arith))

  pub map-snoc : (f : ℕ → A) (xs : List ℕ) (y : ℕ) → map f (xs ++ y ∷ []) ≡ map f xs ++ f y ∷ []
  map-snoc f xs y = map-append f xs (y ∷ [])

  -- A value written to a fresh buffer at the end of the pending ones.
  pub contents-snoc :
      (cell : ℕ → A) (p : ℕ) (v : A) (ps : List ℕ)
      → count p ps ≡ 0
      → map (update cell p v) (ps ++ p ∷ []) ≡ map cell ps ++ v ∷ []
  contents-snoc cell p v ps h =
      map-snoc (update cell p v) ps p ∙ ap₂ ◌++◌ (contents-update cell p v ps h) (ground arith)
