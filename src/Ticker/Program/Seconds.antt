-- ===== src/Ticker/Program/Seconds.antt =====
-- ticker: the programs on a clock that counts seconds.
use rtems_examples.Common.{
  ℕ, zero, suc, ◌+◌, ◌-◌, ◌*◌, ◌/◌, ◌%◌, ◌≡◌, ◌≤◌, ◌<◌, refl, ap, subst, sym, ◌∙◌, arith, Bool,
  true, false, ◌&&◌, List, [], ◌∷◌, leb, ltb, ◌==◌, if◌then◌else◌, Bool-cases, inl, inr,
}
use mathlib.Core.List.{map}
use rtems_examples.Ticker.{Event, prints, usage_report, ends}
use rtems_examples.Ticker.Schedule.{Task, ta1, ta2, ta3, index}
use rtems_examples.Ticker.Program.{
  Round, ends_program, goes_on, Dues, due, set_due, Order, by_123, by_132, by_213, by_231, by_312,
  by_321, is_least, pick, run,
}

abbrev same : Task → Task → Bool
same ta1 ta1 = true
same ta2 ta2 = true
same ta3 ta3 = true
same a b = false

-- How often a task prints a second.
pub times : Task → ℕ → List (Task × Event) → ℕ
times k s [] = 0
times k s ((j, prints t) ∷ rest) = (if same k j && (s == t) then 1 else 0) + times k s rest
times k s ((j, usage_report) ∷ rest) = times k s rest
times k s ((j, ends) ∷ rest) = times k s rest

-- The seconds never go down, and the program ends once, behind all lines.
pub InOrder : ℕ → List (Task × Event) → Type 0
InOrder second [] = ⊥
InOrder second ((k, prints t) ∷ rest) = (second ≤ t) × InOrder t rest
InOrder second ((k, usage_report) ∷ rest) = rest ≡ (k, ends) ∷ []
InOrder second ((k, ends) ∷ rest) = rest ≡ []

-- What ends the program: the line, or the line behind a report.
pub data IsLast : List Event → Type 0 where
  plainly : IsLast (ends ∷ [])
  reported : IsLast (usage_report ∷ ends ∷ [])

unfoldable pub second_round : (limit : ℕ) → List Event → Task → ℕ → Round
second_round limit last k second =
    if leb limit second then ends_program last else goes_on (prints second) (second + index k * 5)

-- Each task wakes at multiples of its period, and there is fuel for its rounds up to the limit.
pub record Fits (limit fuel : ℕ) (d : Dues) : Type 0 where
  pub due1 : d.due1 % 5 ≡ 0
  pub due2 : d.due2 % 10 ≡ 0
  pub due3 : d.due3 % 15 ≡ 0
  pub enough :
      (limit + 4 - d.due1) / 5 + (limit + 9 - d.due2) / 10 + (limit + 14 - d.due3) / 15 < fuel

pick-is_least : (o : Order) (d : Dues) → is_least d (due d (pick o d)) ≡ true
unfolding pick
pick-is_least by_123 d = ground arith
pick-is_least by_132 d = ground arith
pick-is_least by_213 d = ground arith
pick-is_least by_231 d = ground arith
pick-is_least by_312 d = ground arith
pick-is_least by_321 d = ground arith

-- The lines that are still to come.
abbrev pub expected : (limit : ℕ) → Dues → Task → ℕ → ℕ
expected limit d k s = if leb (due d k) s && ltb s limit && (s % (index k * 5) == 0) then 1 else 0

none_left :
    (limit : ℕ) (d : Dues) (t : ℕ) (k : Task) (s : ℕ)
    → is_least d t ≡ true
    → limit ≤ t
    → expected limit d k s ≡ 0
none_left limit d t ta1 s h g = ground arith
none_left limit d t ta2 s h g = ground arith
none_left limit d t ta3 s h g = ground arith

line_printed :
    (limit fuel : ℕ) (d : Dues) (j k : Task) (s : ℕ)
    → Fits limit fuel d
    → due d j < limit
    → expected limit d k s
      ≡ (if same k j && (s == due d j) then 1 else 0)
        + expected limit (set_due d j (due d j + index j * 5)) k s
line_printed limit fuel d ta1 ta1 s v h = ground (arith, v.due1, v.due2, v.due3)
line_printed limit fuel d ta1 ta2 s v h = omega arith
line_printed limit fuel d ta1 ta3 s v h = omega arith
line_printed limit fuel d ta2 ta1 s v h = omega arith
line_printed limit fuel d ta2 ta2 s v h = ground (arith, v.due1, v.due2, v.due3)
line_printed limit fuel d ta2 ta3 s v h = omega arith
line_printed limit fuel d ta3 ta1 s v h = omega arith
line_printed limit fuel d ta3 ta2 s v h = omega arith
line_printed limit fuel d ta3 ta3 s v h = ground (arith, v.due1, v.due2, v.due3)

still-Fits :
    (limit fuel : ℕ) (d : Dues) (j : Task)
    → due d j < limit
    → Fits limit (suc fuel) d
    → Fits limit fuel (set_due d j (due d j + index j * 5))
still-Fits limit fuel d ta1 h v = record {
  due1 = omega (arith, v.due1);
  due2 = v.due2;
  due3 = v.due3;
  enough = omega (arith, v.enough);
}
still-Fits limit fuel d ta2 h v = record {
  due1 = v.due1;
  due2 = omega (arith, v.due2);
  due3 = v.due3;
  enough = omega (arith, v.enough);
}
still-Fits limit fuel d ta3 h v = record {
  due1 = v.due1;
  due2 = v.due2;
  due3 = omega (arith, v.due3);
  enough = omega (arith, v.enough);
}

module _ (round : Task → ℕ → Round) (order : ℕ → Order) where
  pub run_goes :
      (fuel n : ℕ) (d : Dues) (event : Event) (wakes : ℕ)
      → round (pick (order n) d) (due d (pick (order n) d)) ≡ goes_on event wakes
      → run round order (suc fuel) n d
        ≡ (pick (order n) d, event)
          ∷ run round order fuel (n + 1) (set_due d (pick (order n) d) wakes)
  unfolding run
  run_goes fuel n d event wakes e = rw (e, run) refl

  pub run_ends :
      (fuel n : ℕ) (d : Dues) (events : List Event)
      → round (pick (order n) d) (due d (pick (order n) d)) ≡ ends_program events
      → run round order (suc fuel) n d ≡ map (λ event. (pick (order n) d, event)) events
  unfolding run
  run_ends fuel n d events e = rw (e, run) refl

times_last :
    (k j : Task) (s : ℕ) (last : List Event)
    → IsLast last
    → times k s (map (λ event. (j, event)) last) ≡ 0
unfolding times
times_last k j s last plainly = refl
times_last k j s last reported = refl

times_prints :
    (k j : Task) (s t : ℕ) (rest : List (Task × Event))
    → times k s ((j, prints t) ∷ rest) ≡ (if same k j && (s == t) then 1 else 0) + times k s rest
unfolding times
times_prints k j s t rest = refl

InOrder-prints :
    (j : Task) (second t : ℕ) (rest : List (Task × Event))
    → second ≤ t
    → InOrder t rest
    → InOrder second ((j, prints t) ∷ rest)
unfolding InOrder
InOrder-prints j second t rest h r = (h, r)

least_due : (d : Dues) (t : ℕ) (j : Task) → is_least d t ≡ true → t ≤ due d j
least_due d t ta1 h = ground arith
least_due d t ta2 h = ground arith
least_due d t ta3 h = ground arith

is_least-later :
    (d : Dues) (t m : ℕ) (j : Task)
    → is_least d t ≡ true
    → t ≤ m
    → is_least (set_due d j m) t ≡ true
is_least-later d t m ta1 h g = ground arith
is_least-later d t m ta2 h g = ground arith
is_least-later d t m ta3 h g = ground arith

InOrder-last :
    (j : Task) (t : ℕ) (last : List Event)
    → IsLast last
    → InOrder t (map (λ event. (j, event)) last)
unfolding InOrder
InOrder-last j t last plainly = refl
InOrder-last j t last reported = refl

module _ (limit : ℕ) (last : List Event) (l : IsLast last) (order : ℕ → Order) where
  abbrev out : (fuel n : ℕ) → Dues → List (Task × Event)
  out fuel n d = run (second_round limit last) order fuel n d

  goes :
      (j : Task) (t : ℕ)
      → leb limit t ≡ false
      → second_round limit last j t ≡ goes_on (prints t) (t + index j * 5)
  unfolding second_round
  goes j t e = rw e refl

  stops : (j : Task) (t : ℕ) → leb limit t ≡ true → second_round limit last j t ≡ ends_program last
  unfolding second_round
  stops j t e = rw e refl

  pub times-run :
      (fuel n : ℕ) (d : Dues) (k : Task) (s : ℕ)
      → Fits limit fuel d
      → times k s (out fuel n d) ≡ expected limit d k s
  times-run zero n d k s v = absurd (omega (arith, v.enough))
  times-run (suc fuel) n d k s v =
      let j = pick (order n) d in
      let least = pick-is_least (order n) d in
      elim (Bool-cases (leb limit (due d j))) [
        | inl e ↦
            ap (times k s)
              (run_ends (second_round limit last) order fuel n d last (stops j (due d j) e))
            ∙ times_last k j s last l
            ∙ sym (none_left limit d (due d j) k s least (ground arith))
        | inr e ↦
            let h : due d j < limit = ground arith in
            ap (times k s) (
              run_goes (second_round limit last) order fuel n d (prints (due d j))
                (due d j + index j * 5) (goes j (due d j) e))
            ∙ times_prints k j s (due d j) (out fuel (n + 1) (set_due d j (due d j + index j * 5)))
            ∙ ap (λ m. (if same k j && (s == due d j) then 1 else 0) + m)
                (times-run fuel (n + 1) (set_due d j (due d j + index j * 5)) k s
                  (still-Fits limit fuel d j h v))
            ∙ sym (line_printed limit (suc fuel) d j k s v h)
      ]

  pub run-InOrder :
      (fuel n : ℕ) (d : Dues) (t : ℕ)
      → Fits limit fuel d
      → is_least d t ≡ true
      → InOrder t (out fuel n d)
  run-InOrder zero n d t v f = absurd (omega (arith, v.enough))
  run-InOrder (suc fuel) n d t v f =
      let j = pick (order n) d in
      let least = pick-is_least (order n) d in
      elim (Bool-cases (leb limit (due d j))) [
        | inl e ↦
            subst (InOrder t)
              (sym (run_ends (second_round limit last) order fuel n d last (stops j (due d j) e)))
              (InOrder-last j t last l)
        | inr e ↦
            let h : due d j < limit = ground arith in
            subst (InOrder t)
              (sym (
                run_goes (second_round limit last) order fuel n d (prints (due d j))
                  (due d j + index j * 5) (goes j (due d j) e)))
              (InOrder-prints j t (due d j) (out fuel (n + 1) (set_due d j (due d j + index j * 5)))
                (least_due d t j f)
                (run-InOrder fuel (n + 1) (set_due d j (due d j + index j * 5)) (due d j)
                  (still-Fits limit fuel d j h v)
                  (is_least-later d (due d j) (due d j + index j * 5) j least (omega arith))))
      ]
