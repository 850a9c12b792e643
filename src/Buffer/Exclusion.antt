-- ===== src/Buffer/Exclusion.antt =====
-- c11/c11_cndvar01/test.c: only one thread is between `mtx_lock` and `mtx_unlock`.
use rtems_examples.Common.{
  ℕ, zero, suc, ◌≡◌, ◌≢◌, refl, ap, sym, ◌∙◌, true, false, Option, none, some, List, [], ◌∷◌, ◌==◌,
  ==_iff, Bool-cases, subst, inl, inr,
}
use rtems_examples.Common.Lists.{All, get_elem?, set, get_elem?-set_ne}
use rtems_examples.Buffer.{
  At, at_get, at_put, test_value, at_read, at_reset, wait_signal, relock, at_signal, unlock_got,
  unlock_put, put_value, store_value, got, done, State, Step, get_locks, get_waits, wakes, relocks,
  finds, reads, resets, get_unlocks, put_locks, reads_old, stores_first, stores_over, signals,
  put_unlocks, Reach, here, next, buffer_init,
}

-- The places between `mtx_lock` and `mtx_unlock`, less those in `cnd_wait`.
abbrev pub IsInside : At → Type 0
IsInside at_get = ⊥
IsInside (at_put v) = ⊥
IsInside test_value = Unit
IsInside at_read = Unit
IsInside (at_reset r) = Unit
IsInside wait_signal = ⊥
IsInside relock = ⊥
IsInside at_signal = Unit
IsInside (unlock_got v) = Unit
IsInside unlock_put = Unit
IsInside (put_value v) = Unit
IsInside (store_value v old) = Unit
IsInside (got v) = ⊥
IsInside done = ⊥

-- Whoever is inside owns the mutex.
abbrev pub Owned : List At → Option ℕ → Type 0
Owned ts o = (i : ℕ) (a : At) → get_elem? ts i ≡ some a → IsInside a → o ≡ some i

pub ne_of_test : (i j : ℕ) → (i == j) ≡ false → i ≢ j
ne_of_test i j e p = clash (sym ((==_iff i j).1 p) ∙ e)
  where
    clash : true ≢ false
    clash q = cc

pub set_elem : (ts : List At) (i : ℕ) (a b : At) → get_elem? (set ts i a) i ≡ some b → a ≡ b
set_elem [] i a b e = cc
set_elem (t ∷ ts) zero a b e = cc
set_elem (t ∷ ts) (suc i) a b e = set_elem ts i a b e

-- After a move of thread i to `a`.
set-Owned :
    (ts : List At) (o : Option ℕ) (i : ℕ) (a : At)
    → ((j : ℕ) (b : At) → i ≢ j → get_elem? ts j ≡ some b → IsInside b → o ≡ some j)
    → (IsInside a → o ≡ some i)
    → Owned (set ts i a) o
set-Owned ts o i a others mine j b e h = elim (Bool-cases (i == j)) [
  | inl t ↦
      let p : i ≡ j = (==_iff i j).0 t in
      let q = set_elem ts i a b (ap (get_elem? (set ts i a)) p ∙ e) in
      mine (subst IsInside (sym q) h) ∙ ap some p
  | inr f ↦
      let apart = ne_of_test i j f in others j b apart (sym (get_elem?-set_ne ts i j a apart) ∙ e) h
]

locked-Owned : (ts : List At) (i : ℕ) (a : At) → Owned ts none → Owned (set ts i a) (some i)
locked-Owned ts i a k =
    set-Owned ts (some i) i a (λ j b ne e h. absurd (none_ne_some (k j b e h))) (λ h. refl)
  where
    none_ne_some : {j : ℕ} → none ≢ some j
    none_ne_some q = cc

inside-Owned : (ts : List At) (i : ℕ) (a : At) → Owned ts (some i) → Owned (set ts i a) (some i)
inside-Owned ts i a k = set-Owned ts (some i) i a (λ j b ne e h. k j b e h) (λ h. refl)

unlocked-Owned :
    (ts : List At) (i : ℕ) (a : At) → ¬ IsInside a → Owned ts (some i) → Owned (set ts i a) none
unlocked-Owned ts i a out k =
    set-Owned ts none i a (λ j b ne e h. absurd (ne (some_inj (k j b e h)))) (λ h. absurd (out h))
  where
    some_inj : {m n : ℕ} → some m ≡ some n → m ≡ n
    some_inj q = cc

outside-Owned :
    (ts : List At) (o : Option ℕ) (i : ℕ) (a : At)
    → ¬ IsInside a
    → Owned ts o
    → Owned (set ts i a) o
outside-Owned ts o i a out k = set-Owned ts o i a (λ j b ne e h. k j b e h) (λ h. absurd (out h))

abbrev pub IsOwned : State → Type 0
IsOwned s = Owned s.threads s.owner

-- A thread that is inside moves and stays inside, or goes outside and lets the mutex go.
stays-Owned :
    (s : State) (i : ℕ) (a b : At)
    → get_elem? s.threads i ≡ some a
    → IsInside a
    → IsOwned s
    → Owned (set s.threads i b) s.owner
stays-Owned s i a b p h k = let own = k i a p h in rw own (inside-Owned s.threads i b (rw own at k))

leaves-Owned :
    (s : State) (i : ℕ) (a b : At)
    → get_elem? s.threads i ≡ some a
    → IsInside a
    → ¬ IsInside b
    → IsOwned s
    → Owned (set s.threads i b) none
leaves-Owned s i a b p h out k =
    let own = k i a p h in unlocked-Owned s.threads i b out (rw own at k)

pub Step-Owned : {s t : State} → Step s t → IsOwned s → IsOwned t
Step-Owned (get_locks s i p free) k = locked-Owned s.threads i _ (rw free at k)
Step-Owned (get_waits s i p e) k = leaves-Owned s i _ _ p tt (λ h. h) k
Step-Owned (wakes s i p) k = outside-Owned s.threads s.owner i _ (λ h. h) k
Step-Owned (relocks s i p free) k = locked-Owned s.threads i _ (rw free at k)
Step-Owned (finds s i v p e) k = stays-Owned s i _ _ p tt k
Step-Owned (reads s i p) k = stays-Owned s i _ _ p tt k
Step-Owned (resets s i r p) k = stays-Owned s i _ _ p tt k
Step-Owned (get_unlocks s i r p) k = leaves-Owned s i _ _ p tt (λ h. h) k
Step-Owned (put_locks s i v p free) k = locked-Owned s.threads i _ (rw free at k)
Step-Owned (reads_old s i v p) k = stays-Owned s i _ _ p tt k
Step-Owned (stores_first s i v p) k = stays-Owned s i _ _ p tt k
Step-Owned (stores_over s i v old p) k = stays-Owned s i _ _ p tt k
Step-Owned (signals s i p) k = stays-Owned s i _ _ p tt k
Step-Owned (put_unlocks s i p) k = leaves-Owned s i _ _ p tt (λ h. h) k

Reach-Owned : {s t : State} → IsOwned s → Reach s t → IsOwned t
Reach-Owned k here = k
Reach-Owned k (next r st) = Step-Owned st (Reach-Owned k r)

pub none_inside : (ts : List At) → All (λ a. ¬ IsInside a) ts → Owned ts none
none_inside [] out i a e h = cc
none_inside (t ∷ ts) out zero a e h = absurd (out.0 (subst IsInside (same e) h))
  where
    same : some t ≡ some a → a ≡ t
    same q = cc
none_inside (t ∷ ts) out (suc i) a e h = absurd (clash (none_inside ts out.1 i a e h))
  where
    clash : none ≢ some i
    clash q = cc

-- When no thread is inside the calls at the start, then in every reachable state at most one thread
-- is between `mtx_lock` and `mtx_unlock` and not in `cnd_wait`.
pub Reach-exclusive :
    (threads : List At) {s : State}
    → All (λ a. ¬ IsInside a) threads
    → Reach (buffer_init threads) s
    → (i j : ℕ) (a b : At) → get_elem? s.threads i ≡ some a
    → get_elem? s.threads j ≡ some b
    → IsInside a
    → IsInside b
    → i ≡ j
unfolding buffer_init
Reach-exclusive threads out r i j a b e f h l =
    let k = Reach-Owned (none_inside threads out) r in some_inj (sym (k i a e h) ∙ k j b f l)
  where
    some_inj : {m n : ℕ} → some m ≡ some n → m ≡ n
    some_inj q = cc
