-- ===== src/Blink/Parity.antt =====
-- led: the parity of the counts by which the servers choose, also when a count wraps round.
use rtems_examples.Common.{ℕ, suc, ◌%◌, ◌≡◌, ◌⊎◌, inl, inr, refl, arith}
use rtems_examples.Blink.{flip, by_count, next_count}

parity : (c : ℕ) → ((c % 2 ≡ 0) × (next_count c % 2 ≡ 1)) ⊎ ((c % 2 ≡ 1) × (next_count c % 2 ≡ 0))
parity c =
    let two : (c % 2 ≡ 0) ⊎ (c % 2 ≡ 1) = ground arith in
    elim two [ inl e ↦ inl (e, omega arith) | inr e ↦ inr (e, omega arith) ]

pub by_count-next_count : (c : ℕ) → by_count (next_count c) ≡ flip (by_count c)
unfolding by_count
by_count-next_count c = elim (parity c) [ inl e ↦ rw (e.0, e.1) refl | inr e ↦ rw (e.0, e.1) refl ]

suc_parity : (c : ℕ) → ((c % 2 ≡ 0) × (suc c % 2 ≡ 1)) ⊎ ((c % 2 ≡ 1) × (suc c % 2 ≡ 0))
suc_parity c =
    let two : (c % 2 ≡ 0) ⊎ (c % 2 ≡ 1) = ground arith in
    elim two [ inl e ↦ inl (e, omega arith) | inr e ↦ inr (e, omega arith) ]

pub by_count-suc : (c : ℕ) → by_count (suc c) ≡ flip (by_count c)
unfolding by_count
by_count-suc c = elim (suc_parity c) [ inl e ↦ rw (e.0, e.1) refl | inr e ↦ rw (e.0, e.1) refl ]
