-- ===== src/Blink/Rotation.antt =====
-- led/led.h: the macros for two boards with a register of LEDs.
mod Bounds
mod Tests
use rtems_examples.Common.{
  ℕ, zero, suc, ◌+◌, ◌%◌, ◌^◌, Option, none, some, List, [], ◌∷◌, ◌==◌, if◌then◌else◌,
}
use rtems_examples.Common.Lists.{get_elem?}
use rtems_examples.Blink.{Led, off, on}

-- What the macros of the mbx860 store to its register.
pub mbx_led_reg : Led → ℕ
mbx_led_reg on = 0x0f
mbx_led_reg off = 0x00

abbrev pub mpc8313_led_values : List ℕ
mpc8313_led_values = 0x01 ∷ 0x02 ∷ 0x04 ∷ 0x08 ∷ 0x80 ∷ 0x40 ∷ 0x20 ∷ 0x10 ∷ []

-- `LED_ROTATE` of the MPC8313ERDB, which both macros are: the value that is stored and the next
-- `MPC8313_LED_Count`; `none` is a read beyond the values.
pub led_rotate : ℕ → Option (ℕ × ℕ)
led_rotate count = elim (get_elem? mpc8313_led_values count) [
  | none ↦ none
  | some value ↦ let next = (count + 1) % 2 ^ 8 in some (value, (if next == 9 then 0 else next))
]

-- Calls of the macro from a count on: the values stored, in order.
pub rotations : ℕ → ℕ → Option (List ℕ)
unfolding led_rotate
rotations zero count = some []
rotations (suc calls) count = elim (led_rotate count) [
  | none ↦ none
  | some (value, next) ↦ elim (rotations calls next) [
    | none ↦ none
    | some values ↦ some (value ∷ values)
  ]
]
