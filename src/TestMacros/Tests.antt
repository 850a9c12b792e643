-- ===== src/TestMacros/Tests.antt =====
-- testmacros.h: the name of the first task of the tickers.
use rtems_examples.Common.{true, [], ◌∷◌, ◌≡◌, arith}
use rtems_examples.TestMacros.{put_name}
use rtems_examples.TestMacros.Names.{name_of, IsText, put_name-name_of}

put_name-name_of_example :
    put_name (name_of (b'T' ∷ b'A' ∷ b'1' ∷ [])) true ≡ b'T' ∷ b'A' ∷ b'1' ∷ 0x0a ∷ []
unfolding IsText
put_name-name_of_example =
    put_name-name_of (b'T' ∷ b'A' ∷ b'1' ∷ []) true
      ((omega arith, omega arith), ((omega arith, omega arith), ((omega arith, omega arith), tt)))
      (omega arith) (omega arith)
