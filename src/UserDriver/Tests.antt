-- ===== src/UserDriver/Tests.antt =====
-- Calls of the entries of misc/userdrv/userdrv.c.
use rtems_examples.Common.{◌≡◌, refl, [], ◌∷◌, some}
use rtems_examples.Common.Lists.{replicate}
use rtems_examples.UserDriver.{
  returns, successful, invalid_number, RwArgs, userdrv_write, userdrv_control,
}

abbrev asked_for_two : RwArgs
asked_for_two = record { count = 2; bytes_moved = 0; buffer = replicate 16 7 }

abbrev small : RwArgs
small = record { count = 2; bytes_moved = 0; buffer = 7 ∷ 7 ∷ [] }

write_moves_all : userdrv_write (some small) ≡ returns successful (record small { bytes_moved = 2 })
unfolding userdrv_write
write_moves_all = refl

other_command :
    userdrv_control (some (record { command = 1; ioctl_return = 9 }))
    ≡ returns invalid_number (record { command = 1; ioctl_return = 0 })
unfolding userdrv_control
other_command = refl
