-- ===== src/Blink/Token/Holding.antt =====
-- led/sem_server/init.c and led/posix_mutex_server/test.c: who holds the token, and that a step of
-- either task keeps it so.
use rtems_examples.Common.{ℕ, ◌≡◌, refl, ap, sym, true, false, List, [], ◌∷◌, ◌⊎◌, inl, inr}
use rtems_examples.Blink.{Led, off, on, flip, DiffersFrom, Alternates}
use rtems_examples.Blink.Token.{
  Turn, step, release, At, at_switch, asleep, at_release, at_obtain, waiting, is_ready,
}

abbrev pub IsWaiting : At → Type 0
IsWaiting at_obtain = ⊥
IsWaiting waiting = Unit
IsWaiting at_switch = ⊥
IsWaiting asleep = ⊥
IsWaiting at_release = ⊥

abbrev pub Wants : At → Type 0
Wants at_obtain = Unit
Wants waiting = Unit
Wants at_switch = ⊥
Wants asleep = ⊥
Wants at_release = ⊥

abbrev pub Shows : Led → List Led → Type 0
Shows led [] = ⊥
Shows led (l ∷ ls) = l ≡ led

-- The task whose LED this is holds the token, and the other wants it.
abbrev pub Holds : Led → At → At → ℕ → List Led → Type 0
Holds led at_switch other n ls = Wants other × (n ≡ 0) × DiffersFrom led ls
Holds led asleep other n ls = Wants other × (n ≡ 0) × Shows led ls
Holds led at_release other n ls = IsWaiting other × (n ≡ 0) × Shows led ls
Holds led at_obtain other n ls = ⊥
Holds led waiting other n ls = ⊥

abbrev pub IsFresh : At → At → ℕ → List Led → Type 0
IsFresh at_obtain at_obtain n ls = (n ≡ 1) × (ls ≡ [])
IsFresh _ _ n ls = ⊥

pub record Kept (led : Led) (m o : At) (n : ℕ) (ls : List Led) : Type 0 where
  pub still : Alternates ls
  pub held : Holds led m o n ls ⊎ Holds (flip led) o m n ls ⊎ IsFresh m o n ls

abbrev pub Stepped : Led → Turn → Type 0
Stepped led t = Kept led t.mine t.other t.count t.shown

-- The task that holds the token makes a step.
holder-Kept :
    (led : Led) (m o : At) (n : ℕ) (ls : List Led)
    → Holds led m o n ls
    → Alternates ls
    → Stepped led (step led m o n ls)
unfolding step release
holder-Kept led at_switch o n ls h a = record { still = (h.2, a); held = inl (h.0, h.1, refl) }
holder-Kept led asleep o n ls h a = record { still = a; held = inl h }
holder-Kept led at_release waiting n [] h a = elim h.2 [ ]
holder-Kept led at_release waiting n (l ∷ ls) h a = record {
  still = a;
  held = inr (inl (tt, h.1, ap flip (sym h.2)));
}
holder-Kept led at_release at_obtain n ls h a = elim h.0 [ ]
holder-Kept led at_release at_switch n ls h a = elim h.0 [ ]
holder-Kept led at_release at_release n ls h a = elim h.0 [ ]
holder-Kept led at_release asleep n ls h a = elim h.0 [ ]
holder-Kept led at_obtain o n ls h a = elim h [ ]
holder-Kept led waiting o n ls h a = elim h [ ]

holder_alone : (led : Led) (o : At) (n : ℕ) (ls : List Led) → Holds (flip led) o at_switch n ls → ⊥
holder_alone led at_switch n ls h = h.0
holder_alone led asleep n ls h = h.0
holder_alone led at_release n ls h = h.0
holder_alone led at_obtain n ls h = h
holder_alone led waiting n ls h = h

releaser_alone :
    (led : Led) (o : At) (n : ℕ) (ls : List Led) → Holds (flip led) o at_release n ls → ⊥
releaser_alone led at_switch n ls h = h.0
releaser_alone led asleep n ls h = h.0
releaser_alone led at_release n ls h = h.0
releaser_alone led at_obtain n ls h = h
releaser_alone led waiting n ls h = h

-- The other task makes a step.
wanter-Kept :
    (led : Led) (m o : At) (n : ℕ) (ls : List Led)
    → Holds (flip led) o m n ls
    → Alternates ls
    → is_ready m ≡ true
    → Stepped led (step led m o n ls)
unfolding step release is_ready
wanter-Kept led at_obtain at_switch n ls h a r =
    rw h.1 (record { still = a; held = inr (inl (tt, refl, h.2)) })
wanter-Kept led at_obtain asleep n ls h a r =
    rw h.1 (record { still = a; held = inr (inl (tt, refl, h.2)) })
wanter-Kept led at_obtain at_release n ls h a r = elim h.0 [ ]
wanter-Kept led at_obtain at_obtain n ls h a r = elim h [ ]
wanter-Kept led at_obtain waiting n ls h a r = elim h [ ]
wanter-Kept led waiting o n ls h a r = cc
wanter-Kept led at_switch o n ls h a r = absurd (holder_alone led o n ls h)
wanter-Kept led asleep o n ls h a r = cc
wanter-Kept led at_release o n ls h a r = absurd (releaser_alone led o n ls h)

fresh-Kept :
    (led : Led) (m o : At) (n : ℕ) (ls : List Led)
    → IsFresh m o n ls
    → Stepped led (step led m o n ls)
unfolding step
fresh-Kept led at_obtain at_obtain n ls h =
    rw (h.0, h.1) (record { still = tt; held = inl (tt, refl, tt) })
fresh-Kept led at_switch o n ls h = elim h [ ]
fresh-Kept led asleep o n ls h = elim h [ ]
fresh-Kept led at_release o n ls h = elim h [ ]
fresh-Kept led waiting o n ls h = elim h [ ]
fresh-Kept led at_obtain at_switch n ls h = elim h [ ]
fresh-Kept led at_obtain asleep n ls h = elim h [ ]
fresh-Kept led at_obtain at_release n ls h = elim h [ ]
fresh-Kept led at_obtain waiting n ls h = elim h [ ]

-- Only one task holds the token.
IsFresh-symm : (m o : At) (n : ℕ) (ls : List Led) → IsFresh m o n ls → IsFresh o m n ls
IsFresh-symm at_obtain at_obtain n ls h = h
IsFresh-symm at_switch o n ls h = elim h [ ]
IsFresh-symm asleep o n ls h = elim h [ ]
IsFresh-symm at_release o n ls h = elim h [ ]
IsFresh-symm waiting o n ls h = elim h [ ]
IsFresh-symm at_obtain at_switch n ls h = elim h [ ]
IsFresh-symm at_obtain asleep n ls h = elim h [ ]
IsFresh-symm at_obtain at_release n ls h = elim h [ ]
IsFresh-symm at_obtain waiting n ls h = elim h [ ]

pub any-Kept :
    (led : Led) (m o : At) (n : ℕ) (ls : List Led)
    → Kept led m o n ls
    → is_ready m ≡ true
    → Stepped led (step led m o n ls)
any-Kept led m o n ls k r = elim k.held [
  | inl h ↦ holder-Kept led m o n ls h k.still
  | inr (inl h) ↦ wanter-Kept led m o n ls h k.still r
  | inr (inr h) ↦ fresh-Kept led m o n ls h
]

pub symm_Kept : (m s : At) (n : ℕ) (ls : List Led) → Kept on s m n ls → Kept off m s n ls
symm_Kept m s n ls k = elim k.held [
  | inl h ↦ record { still = k.still; held = inr (inl h) }
  | inr (inl h) ↦ record { still = k.still; held = inl h }
  | inr (inr h) ↦ record { still = k.still; held = inr (inr (IsFresh-symm s m n ls h)) }
]

pub symm_Kept' : (m s : At) (n : ℕ) (ls : List Led) → Kept off m s n ls → Kept on s m n ls
symm_Kept' m s n ls k = elim k.held [
  | inl h ↦ record { still = k.still; held = inr (inl h) }
  | inr (inl h) ↦ record { still = k.still; held = inl h }
  | inr (inr h) ↦ record { still = k.still; held = inr (inr (IsFresh-symm m s n ls h)) }
]

-- While the holder sleeps and no task can run, the other waits.
pub wakes-Kept :
    (led : Led) (o : At) (n : ℕ) (ls : List Led)
    → Kept led asleep o n ls
    → is_ready o ≡ false
    → Kept led at_release o n ls
unfolding is_ready
wakes-Kept led waiting n ls k r = elim k.held [
  | inl h ↦ record { still = k.still; held = inl h }
  | inr (inl h) ↦ elim h [ ]
  | inr (inr h) ↦ elim h [ ]
]
wakes-Kept led at_obtain n ls k r = cc
wakes-Kept led at_switch n ls k r = cc
wakes-Kept led at_release n ls k r = cc
wakes-Kept led asleep n ls k r = elim k.held [
  | inl h ↦ elim h.0 [ ]
  | inr (inl h) ↦ elim h.0 [ ]
  | inr (inr h) ↦ elim h [ ]
]
