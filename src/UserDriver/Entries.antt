-- ===== src/UserDriver/Entries.antt =====
-- misc/userdrv/userdrv.c: registration at any number of calls, and reads into buffers of any size.
use rtems_examples.Common.{
  ℕ, zero, suc, ◌≡◌, ◌<◌, ◌≤◌, refl, arith, true, false, none, some, List, [], ◌∷◌, ◌++◌, ◌==◌,
  if◌then◌else◌, leb, Bool-cases, inl, inr,
}
use rtems_examples.Common.Lists.{length}
use rtems_examples.UserDriver.{
  Ends, returns, fatal, null_used, overrun, Driver, RwArgs, successful, outstr, memcpy,
  userdrv_initialize, userdrv_read,
}

-- The initialize entry, called for each major in turn as long as it returns.
pub initialize_all : ℕ → List ℕ → Driver → Ends Driver
initialize_all status [] d = returns successful d
initialize_all status (major ∷ majors) d = elim (userdrv_initialize status major d) [
  | returns s e ↦ initialize_all status majors e
  | fatal s ↦ fatal s
  | null_used ↦ null_used
  | overrun ↦ overrun
]

abbrev pub unused : Driver
unused = record { initialized = false; major = 0; registered = [] }

initialize_all-used :
    (status : ℕ) (majors : List ℕ) (d : Driver)
    → d.initialized ≡ true
    → initialize_all status majors d ≡ returns successful d
unfolding initialize_all userdrv_initialize
initialize_all-used status [] d e = refl
initialize_all-used status (m ∷ majors) d e = ground (arith, initialize_all-used status majors d e)

-- However often the initialize entry is called, the name is registered once, for the major of the
-- first call, which is kept; a status other than success of the registration is fatal at once.
pub initialize_all-once :
    (status major : ℕ) (majors : List ℕ)
    → initialize_all status (major ∷ majors) unused ≡ (
        if status == successful
        then returns successful
            (record { initialized = true; major = major; registered = major ∷ [] })
        else fatal status)
unfolding initialize_all userdrv_initialize
initialize_all-once status major majors = ground (
  arith,
  initialize_all-used status majors
      (record { initialized = true; major = major; registered = major ∷ [] }) refl,
)

-- The tail of a list behind its first n entries.
abbrev pub drop : ℕ → List ℕ → List ℕ
drop zero xs = xs
drop (suc n) [] = []
drop (suc n) (x ∷ xs) = drop n xs

memcpy-fits :
    (memory bytes : List ℕ)
    → length bytes ≤ length memory
    → memcpy memory bytes ≡ some (bytes ++ drop (length bytes) memory)
unfolding memcpy
memcpy-fits memory [] h = refl
memcpy-fits [] (b ∷ bytes) h = absurd (omega arith)
memcpy-fits (m ∷ memory) (b ∷ bytes) h = rw (memcpy-fits memory bytes (omega arith)) refl

memcpy-short : (memory bytes : List ℕ) → length memory < length bytes → memcpy memory bytes ≡ none
unfolding memcpy
memcpy-short memory [] h = absurd (omega arith)
memcpy-short [] (b ∷ bytes) h = refl
memcpy-short (m ∷ memory) (b ∷ bytes) h = rw (memcpy-short memory bytes (omega arith)) refl

-- A read does not look at `count`: where the caller's buffer has fifteen bytes or more, the text and
-- its NUL are put in front, the rest stays, and fifteen bytes are reported as moved.
pub userdrv_read-fits :
    (a : RwArgs)
    → 15 ≤ length a.buffer
    → userdrv_read (some a)
      ≡ returns successful (record a { bytes_moved = 15; buffer = outstr ++ drop 15 a.buffer })
unfolding userdrv_read memcpy
userdrv_read-fits a h = rw (memcpy-fits a.buffer outstr h) refl

-- A read into a buffer of fewer than fifteen bytes overruns it, whatever `count` says.
pub userdrv_read-short : (a : RwArgs) → length a.buffer < 15 → userdrv_read (some a) ≡ overrun
unfolding userdrv_read memcpy
userdrv_read-short a h = rw (memcpy-short a.buffer outstr h) refl

-- Whatever `count` says, a read puts the fifteen bytes of the text and its NUL in front of the
-- caller's buffer, keeps the rest and reports fifteen bytes as moved, and overruns a buffer of fewer.
pub userdrv_read-all :
    (a : RwArgs)
    → userdrv_read (some a) ≡ (
        if leb 15 (length a.buffer)
        then returns successful (record a { bytes_moved = 15; buffer = outstr ++ drop 15 a.buffer })
        else overrun)
userdrv_read-all a = elim (Bool-cases (leb 15 (length a.buffer))) [
  | inl fits ↦ rw fits (userdrv_read-fits a (ground arith))
  | inr short ↦ rw short (userdrv_read-short a (ground arith))
]
