-- ===== src/UserDriver.antt =====
-- misc/userdrv/userdrv.c: the entries of a character device that stands for no device.
-- The text that is printed is left out. An address that is NULL is `none`; the memory behind
-- `buffer` is a list of bytes, as long as what the caller provides.
pub mod Entries
mod Tests
use rtems_examples.Common.{
  ℕ, zero, suc, ◌≡◌, Bool, true, false, not, Option, none, some, List, [], ◌∷◌, ◌++◌, ◌==◌,
  if◌then◌else◌,
}
use rtems_examples.Common.Lists.{length}

-- `RTEMS_SUCCESSFUL` and `RTEMS_INVALID_NUMBER`.
abbrev pub successful : ℕ
successful = 0

abbrev pub invalid_number : ℕ
invalid_number = 10

-- `USERDRV_IOCTL_DO_SOMETHING`
abbrev pub do_something : ℕ
do_something = 0x320001

-- How an entry ends, with what it leaves.
pub data Ends {ℓ} (A : Type ℓ) : Type ℓ where
  returns : (status : ℕ) → A → Ends A
  fatal : (status : ℕ) → Ends A
  -- A field of a structure at NULL is used.
  null_used : Ends A
  -- A write goes beyond the caller's memory.
  overrun : Ends A

-- `initialized`, `USERDRV_major` and the majors registered under "/dev/userdrv".
pub record Driver : Type 0 where
  pub initialized : Bool
  pub major : ℕ
  pub registered : List ℕ

pub record RwArgs : Type 0 where
  pub count : ℕ
  pub bytes_moved : ℕ
  pub buffer : List ℕ

pub record IoctlArgs : Type 0 where
  pub command : ℕ
  pub ioctl_return : ℕ

pub userdrv_initialize : (register_status : ℕ) → ℕ → Driver → Ends Driver
userdrv_initialize register_status major d =
    if not d.initialized
    then (if register_status == successful
        then returns successful
            (record { initialized = true; major = major; registered = d.registered ++ major ∷ [] })
        else fatal register_status)
    else returns successful d

-- `outstr` with its NUL, as the device of the kernel knows it.
abbrev pub outstr : List ℕ
outstr =
    0x74 ∷ 0x68 ∷ 0x69 ∷ 0x73 ∷ 0x20 ∷ 0x69 ∷ 0x73 ∷ 0x20 ∷ 0x6f ∷ 0x75 ∷ 0x74 ∷ 0x70 ∷ 0x75 ∷ 0x74
    ∷ 0 ∷ []

-- `memcpy`, which has no bound of its own; `none` is a write beyond the memory.
pub memcpy : List ℕ → List ℕ → Option (List ℕ)
memcpy memory [] = some memory
memcpy [] (b ∷ bytes) = none
memcpy (m ∷ memory) (b ∷ bytes) = elim (memcpy memory bytes) [ none ↦ none | some r ↦ some (b ∷ r) ]

pub userdrv_read : Option RwArgs → Ends RwArgs
userdrv_read none = null_used
userdrv_read (some rw_args) = elim (memcpy rw_args.buffer outstr) [
  | none ↦ overrun
  | some buffer ↦
      returns successful (record rw_args { bytes_moved = length outstr; buffer = buffer })
]

pub userdrv_write : Option RwArgs → Ends RwArgs
userdrv_write none = null_used
userdrv_write (some rw_args) = returns successful (record rw_args { bytes_moved = rw_args.count })

pub userdrv_control : Option IoctlArgs → Ends IoctlArgs
userdrv_control none = null_used
userdrv_control (some ioctl_args) =
    let a = record ioctl_args { ioctl_return = 0 } in
    if ioctl_args.command == do_something then returns successful a else returns invalid_number a
