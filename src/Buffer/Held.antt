-- ===== src/Buffer/Held.antt =====
-- c11/c11_cndvar01/test.c: what a thread in `buffer_get` knows of the value while it has the mutex.
use rtems_examples.Common.{
  ℕ, ◌≡◌, ◌≢◌, ap, sym, ◌∙◌, Option, none, some, List, ◌==◌, ==_iff, Bool-cases, subst, inl, inr,
  ◌⊎◌,
}
use rtems_examples.Common.Lists.{get_elem?, set, get_elem?-set_ne}
use rtems_examples.Buffer.{
  At, at_get, at_put, test_value, at_read, at_reset, wait_signal, relock, at_signal, unlock_got,
  unlock_put, put_value, store_value, got, done, State, Step, get_locks, get_waits, wakes, relocks,
  finds, reads, resets, get_unlocks, put_locks, reads_old, stores_first, stores_over, signals,
  put_unlocks,
}
use rtems_examples.Buffer.Exclusion.{IsInside, Owned, IsOwned, ne_of_test, set_elem}

-- Behind the loop there is a value, and it is still there when it was read.
abbrev pub Holds : At → Option ℕ → Type 0
Holds at_get value = Unit
Holds (at_put v) value = Unit
Holds test_value value = Unit
Holds at_read value = (v : ℕ) × (value ≡ some v)
Holds (at_reset r) value = (v : ℕ) × (r ≡ some v) × (value ≡ some v)
Holds wait_signal value = Unit
Holds relock value = Unit
Holds at_signal value = Unit
Holds (unlock_got r) value = Unit
Holds unlock_put value = Unit
Holds (put_value v) value = Unit
Holds (store_value v old) value = Unit
Holds (got r) value = Unit
Holds done value = Unit

abbrev pub Held : List At → Option ℕ → Type 0
Held ts value = (i : ℕ) (a : At) → get_elem? ts i ≡ some a → Holds a value

-- A place outside says nothing of the value.
pub outside-Holds : (a : At) (value : Option ℕ) → IsInside a ⊎ Holds a value
outside-Holds at_get value = inr tt
outside-Holds (at_put v) value = inr tt
outside-Holds test_value value = inl tt
outside-Holds at_read value = inl tt
outside-Holds (at_reset r) value = inl tt
outside-Holds wait_signal value = inr tt
outside-Holds relock value = inr tt
outside-Holds at_signal value = inl tt
outside-Holds (unlock_got r) value = inl tt
outside-Holds unlock_put value = inl tt
outside-Holds (put_value v) value = inl tt
outside-Holds (store_value v old) value = inl tt
outside-Holds (got r) value = inr tt
outside-Holds done value = inr tt

set-Held :
    (ts : List At) (value : Option ℕ) (i : ℕ) (a : At)
    → ((j : ℕ) (b : At) → i ≢ j → get_elem? ts j ≡ some b → Holds b value)
    → Holds a value
    → Held (set ts i a) value
set-Held ts value i a others mine j b e = elim (Bool-cases (i == j)) [
  | inl t ↦
      let p : i ≡ j = (==_iff i j).0 t in
      subst (λ x. Holds x value) (set_elem ts i a b (ap (get_elem? (set ts i a)) p ∙ e)) mine
  | inr f ↦
      let apart = ne_of_test i j f in others j b apart (sym (get_elem?-set_ne ts i j a apart) ∙ e)
]

-- A move that leaves the value alone.
kept-Held :
    (ts : List At) (value : Option ℕ) (i : ℕ) (a : At)
    → Holds a value
    → Held ts value
    → Held (set ts i a) value
kept-Held ts value i a mine k = set-Held ts value i a (λ j b ne e. k j b e) mine

-- The thread that has the mutex changes the value: all others are outside.
changed-Held :
    (s : State) (i : ℕ) (a b : At) (value : Option ℕ)
    → get_elem? s.threads i ≡ some a
    → IsInside a
    → IsOwned s
    → Holds b value
    → Held (set s.threads i b) value
changed-Held s i a b value p h owned mine =
    set-Held s.threads value i b
      (λ j c ne e. elim (outside-Holds c value) [
        | inl inside ↦ absurd (ne (same j (sym (owned i a p h) ∙ owned j c e inside)))
        | inr out ↦ out
      ])
      mine
  where
    same : (j : ℕ) → some i ≡ some j → i ≡ j
    same j q = cc

abbrev pub IsHeld : State → Type 0
IsHeld s = Held s.threads s.value

pub Step-Held : {s t : State} → Step s t → IsOwned s → IsHeld s → IsHeld t
Step-Held (get_locks s i p free) o k = kept-Held s.threads s.value i _ tt k
Step-Held (get_waits s i p e) o k = kept-Held s.threads s.value i _ tt k
Step-Held (wakes s i p) o k = kept-Held s.threads s.value i _ tt k
Step-Held (relocks s i p free) o k = kept-Held s.threads s.value i _ tt k
Step-Held (finds s i v p e) o k = kept-Held s.threads s.value i _ (v, e) k
Step-Held (reads s i p) o k =
    let (v, e) = k i at_read p in kept-Held s.threads s.value i _ (v, e, e) k
Step-Held (resets s i r p) o k = changed-Held s i _ _ none p tt o tt
Step-Held (get_unlocks s i r p) o k = kept-Held s.threads s.value i _ tt k
Step-Held (put_locks s i v p free) o k = kept-Held s.threads s.value i _ tt k
Step-Held (reads_old s i v p) o k = kept-Held s.threads s.value i _ tt k
Step-Held (stores_first s i v p) o k = changed-Held s i _ _ (some v) p tt o tt
Step-Held (stores_over s i v old p) o k = changed-Held s i _ _ (some v) p tt o tt
Step-Held (signals s i p) o k = kept-Held s.threads s.value i _ tt k
Step-Held (put_unlocks s i p) o k = kept-Held s.threads s.value i _ tt k

-- With no thread inside.
pub none_inside-Held : (ts : List At) (value : Option ℕ) → Owned ts none → Held ts value
none_inside-Held ts value owned i a e = elim (outside-Holds a value) [
  | inl inside ↦ absurd (clash (owned i a e inside))
  | inr out ↦ out
]
  where
    clash : none ≢ some i
    clash q = cc
