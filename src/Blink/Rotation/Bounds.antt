-- ===== src/Blink/Rotation/Bounds.antt =====
-- led/led.h: how often the LED of the MPC8313ERDB can be switched.
use rtems_examples.Common.{
  ℕ, zero, suc, false, none, some, List, [], ◌∷◌, ◌≡◌, refl, arith, ltb, if◌then◌else◌,
}
use rtems_examples.Blink.Rotation.{mpc8313_led_values, rotations}

-- The first n of some values.
pub first : ℕ → List ℕ → List ℕ
first zero values = []
first (suc n) [] = []
first (suc n) (v ∷ values) = v ∷ first n values

-- From the count that `LED_INIT` sets, up to eight switches store the eight values in order, and the
-- ninth reads behind them.
pub rotations-initial :
    (calls : ℕ)
    → rotations calls 0 ≡ (if ltb calls 9 then some (first calls mpc8313_led_values) else none)
unfolding rotations first
rotations-initial zero = refl
rotations-initial (suc zero) = refl
rotations-initial (suc (suc zero)) = refl
rotations-initial (suc (suc (suc zero))) = refl
rotations-initial (suc (suc (suc (suc zero)))) = refl
rotations-initial (suc (suc (suc (suc (suc zero))))) = refl
rotations-initial (suc (suc (suc (suc (suc (suc zero)))))) = refl
rotations-initial (suc (suc (suc (suc (suc (suc (suc zero))))))) = refl
rotations-initial (suc (suc (suc (suc (suc (suc (suc (suc zero)))))))) = refl
rotations-initial (suc (suc (suc (suc (suc (suc (suc (suc (suc calls))))))))) =
    let large : ltb (suc (suc (suc (suc (suc (suc (suc (suc (suc calls))))))))) 9 ≡ false =
      ground arith in
    rw large refl
