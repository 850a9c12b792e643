-- ===== src/Blink/Rotation/Tests.antt =====
-- Switches of led/led.h on the MPC8313ERDB.
use rtems_examples.Common.{none, some, ◌≡◌, ltb, if◌then◌else◌}
use rtems_examples.Blink.Rotation.{mpc8313_led_values, rotations}
use rtems_examples.Blink.Rotation.Bounds.{first, rotations-initial}

rotations-initial_example :
    rotations 9 0 ≡ (if ltb 9 9 then some (first 9 mpc8313_led_values) else none)
rotations-initial_example = rotations-initial 9
