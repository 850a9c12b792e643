-- ===== src/Ticker/Program/Run.antt =====
-- ticker: a run on a clock of ticks is one on a clock of seconds.
use rtems_examples.Common.{
  ℕ, zero, suc, ◌+◌, ◌*◌, ◌≡◌, ◌≤◌, ◌<◌, refl, ap, ap₂, sym, ◌∙◌, arith, true, false, List, ◌∷◌,
  leb, Bool-cases, inl, inr,
}
use mathlib.Core.List.{map}
use native.Mathlib.Nat.{mul-le-mul_right, mul-lt-mul_of_pos_right}
use native.Mathlib.Decide.{dec_le}
use rtems_examples.Ticker.{Event, prints}
use rtems_examples.Ticker.Schedule.{Task, ta1, ta2, ta3, index}
use rtems_examples.Ticker.Program.{
  Round, ends_program, goes_on, Dues, due, set_due, Order, by_123, by_132, by_213, by_231, by_312,
  by_321, is_least, choose, pick, run,
}
use rtems_examples.Ticker.Program.Seconds.{second_round, run_goes, run_ends}

module _ (hz : ℕ) (some_ticks : 0 < hz) where
  leb-scaled : (a b : ℕ) → leb (a * hz) (b * hz) ≡ leb a b
  leb-scaled a b = elim (dec_le a b) [
    | yes h ↦ let g = mul-le-mul_right hz h in ground arith
    | no h ↦
        let g : b * hz < a * hz = mul-lt-mul_of_pos_right {k = hz} (omega arith) some_ticks in
        ground arith
  ]

  abbrev pub scaled : Dues → Dues
  scaled d = record { due1 = d.due1 * hz; due2 = d.due2 * hz; due3 = d.due3 * hz }

  due-scaled : (d : Dues) (j : Task) → due (scaled d) j ≡ due d j * hz
  due-scaled d ta1 = refl
  due-scaled d ta2 = refl
  due-scaled d ta3 = refl

  set_due-scaled :
      (d : Dues) (j : Task) (t : ℕ) → set_due (scaled d) j (t * hz) ≡ scaled (set_due d j t)
  set_due-scaled d ta1 t = refl
  set_due-scaled d ta2 t = refl
  set_due-scaled d ta3 t = refl

  is_least-scaled : (d : Dues) (t : ℕ) → is_least (scaled d) (t * hz) ≡ is_least d t
  is_least-scaled d t = rw (leb-scaled t d.due1, leb-scaled t d.due2, leb-scaled t d.due3) refl

  choose-scaled : (d : Dues) (a b c : Task) → choose (scaled d) a b c ≡ choose d a b c
  unfolding choose
  choose-scaled d a b c =
      rw (due-scaled d a, due-scaled d b, is_least-scaled d (due d a), is_least-scaled d (due d b))
        refl

  pick-scaled : (o : Order) (d : Dues) → pick o (scaled d) ≡ pick o d
  unfolding pick
  pick-scaled by_123 d = choose-scaled d ta1 ta2 ta3
  pick-scaled by_132 d = choose-scaled d ta1 ta3 ta2
  pick-scaled by_213 d = choose-scaled d ta2 ta1 ta3
  pick-scaled by_231 d = choose-scaled d ta2 ta3 ta1
  pick-scaled by_312 d = choose-scaled d ta3 ta1 ta2
  pick-scaled by_321 d = choose-scaled d ta3 ta2 ta1

  pub record IsBelow (d : Dues) : Type 0 where
    pub below1 : d.due1 < 60
    pub below2 : d.due2 < 60
    pub below3 : d.due3 < 60

  due_below : (d : Dues) (j : Task) → IsBelow d → due d j < 60
  due_below d ta1 b = b.below1
  due_below d ta2 b = b.below2
  due_below d ta3 b = b.below3

  still-IsBelow :
      (d : Dues) (j : Task)
      → due d j < 35
      → IsBelow d
      → IsBelow (set_due d j (due d j + index j * 5))
  still-IsBelow d ta1 h b = record { below1 = omega arith; below2 = b.below2; below3 = b.below3 }
  still-IsBelow d ta2 h b = record { below1 = b.below1; below2 = omega arith; below3 = b.below3 }
  still-IsBelow d ta3 h b = record { below1 = b.below1; below2 = b.below2; below3 = omega arith }

  -- A round on the clock of ticks is that on the clock of seconds.
  module _ (limit : ℕ) (small : limit ≤ 35) (last : List Event) (round : Task → ℕ → Round)
      (ends_at : (k : Task) (s : ℕ)
        → s < 60
        → leb limit s ≡ true
        → round k (s * hz) ≡ ends_program last)
      (goes_at : (k : Task) (s : ℕ)
        → s < 60
        → leb limit s ≡ false
        → round k (s * hz) ≡ goes_on (prints s) ((s + index k * 5) * hz))
      (order : ℕ → Order) where
    pub run-scaled :
        (fuel n : ℕ) (d : Dues)
        → IsBelow d
        → run round order fuel n (scaled d) ≡ run (second_round limit last) order fuel n d
    unfolding second_round
    run-scaled zero n d b = unfold run in refl
    run-scaled (suc fuel) n d b =
        let j = pick (order n) d in
        let picked = pick-scaled (order n) d in
        let at : due (scaled d) (pick (order n) (scaled d)) ≡ due d j * hz =
          ap (due (scaled d)) picked ∙ due-scaled d j in
        elim (Bool-cases (leb limit (due d j))) [
          | inl e ↦
              run_ends round order fuel n (scaled d) last
                (ap₂ round picked at ∙ ends_at j (due d j) (due_below d j b) e)
              ∙ ap (λ k. map (λ event. (k, event)) last) picked
              ∙ sym (run_ends (second_round limit last) order fuel n d last (rw e refl))
          | inr e ↦
              let later = due d j + index j * 5 in
              run_goes round order fuel n (scaled d) (prints (due d j)) (later * hz)
                (ap₂ round picked at ∙ goes_at j (due d j) (due_below d j b) e)
              ∙ ap₂ (λ k rest. (k, prints (due d j)) ∷ rest) picked
                  (ap (λ k. run round order fuel (n + 1) (set_due (scaled d) k (later * hz))) picked
                    ∙ ap (run round order fuel (n + 1)) (set_due-scaled d j later)
                    ∙ run-scaled fuel (n + 1) (set_due d j later)
                        (still-IsBelow d j (ground arith) b))
              ∙ sym (
                  run_goes (second_round limit last) order fuel n d (prints (due d j)) later
                    (rw e refl))
        ]
