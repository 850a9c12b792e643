-- ===== src/Regulator/Library.antt =====
-- What misc/regulator/regulator_example.c relies on in the library behind `rtems/regulator.h`: its
-- calls, and their documented behaviour.
use rtems_examples.Common.{ℕ, suc, ◌+◌, ◌*◌, ◌≤◌, ◌<◌, ◌≡◌, ◌≢◌, min, List, [], ◌∷◌, ◌++◌}
use rtems_examples.Common.Lists.{length}

abbrev pub Text : Type 0
Text = List ℕ

-- `rtems_regulator_attributes`, without the deliverer.
pub record Attributes : Type 0 where
  pub maximum_message_size : ℕ
  pub maximum_messages : ℕ
  pub delivery_thread_priority : ℕ
  pub delivery_thread_stack_size : ℕ
  pub delivery_thread_period : ℕ
  pub maximum_to_dequeue_per_period : ℕ

pub record Statistics : Type 0 where
  pub obtained : ℕ
  pub released : ℕ
  pub delivered : ℕ
  pub count : ℕ
  pub missed_count : ℕ

-- What a call gives: the messages that are handed to the deliverer meanwhile, its result and the
-- state behind it.
pub record Done (S B : Type 0) : Type 0 where
  pub handed : List Text
  pub result : B
  pub after : S

abbrev pub Call : Type 0 → Type 0 → Type 0
Call S B = S → Done S B

-- Status codes and addresses are numbers; `RTEMS_SUCCESSFUL` and NULL are 0.
pub record Operations (S : Type 0) : Type 0 where
  pub ticks_per_second : ℕ
  pub create : Attributes → Call S (ℕ × ℕ)
  pub obtain_buffer : Call S (ℕ × ℕ)
  pub strcpy : ℕ → Text → S → S
  pub send : ℕ → ℕ → Call S ℕ
  pub sleep : ℕ → Call S (Unit {0})
  pub get_statistics : Call S (ℕ × Statistics)

-- `attributes` are those of the regulator, `outstanding` the number of the buffers that are in use,
-- and `waiting` the messages that are sent and not delivered; the others are in the hands of the
-- program, which may send them. A deliverer that returns true gives
-- the buffer back.
pub record IsRegulator {S : Type 0} (os : Operations S) : Type 0 where
  pub attributes : S → Attributes
  pub outstanding : S → ℕ
  pub waiting : S → List Text
  pub content : S → ℕ → Text
  pub create_lem :
      (a : Attributes) (s : S)
      → 0 < a.maximum_messages
      → ((os.create a s).result.0 ≡ 0)
        × ((os.create a s).result.1 ≢ 0)
        × ((os.create a s).handed ≡ [])
        × (attributes (os.create a s).after ≡ a)
        × (outstanding (os.create a s).after ≡ 0)
        × (waiting (os.create a s).after ≡ [])
  pub obtain_buffer_lem :
      (s : S)
      → outstanding s < (attributes s).maximum_messages
      → ((os.obtain_buffer s).result.0 ≡ 0)
        × ((os.obtain_buffer s).result.1 ≢ 0)
        × (attributes (os.obtain_buffer s).after ≡ attributes s)
        × (outstanding (os.obtain_buffer s).after + length (os.obtain_buffer s).handed
            ≡ outstanding s + 1)
        × ((os.obtain_buffer s).handed ++ waiting (os.obtain_buffer s).after ≡ waiting s)
  pub strcpy_lem :
      (b : ℕ) (t : Text) (s : S)
      → (attributes (os.strcpy b t s) ≡ attributes s)
        × (outstanding (os.strcpy b t s) ≡ outstanding s)
        × (waiting (os.strcpy b t s) ≡ waiting s)
        × (content (os.strcpy b t s) b ≡ t)
  pub send_lem :
      (b n : ℕ) (s : S)
      → b ≢ 0
      → n ≤ (attributes s).maximum_message_size
      → length (waiting s) < outstanding s
      → ((os.send b n s).result ≡ 0)
        × (attributes (os.send b n s).after ≡ attributes s)
        × (outstanding (os.send b n s).after + length (os.send b n s).handed ≡ outstanding s)
        × ((os.send b n s).handed ++ waiting (os.send b n s).after ≡ waiting s ++ content s b ∷ [])
  -- All periods but the first are whole ones, and each delivers what it may.
  pub sleep_lem :
      (seconds periods : ℕ) (s : S)
      → suc periods * (attributes s).delivery_thread_period ≤ seconds * os.ticks_per_second
      → (attributes (os.sleep seconds s).after ≡ attributes s)
        × (outstanding (os.sleep seconds s).after + length (os.sleep seconds s).handed
            ≡ outstanding s)
        × ((os.sleep seconds s).handed ++ waiting (os.sleep seconds s).after ≡ waiting s)
        × (min (length (waiting s)) (periods * (attributes s).maximum_to_dequeue_per_period)
            ≤ length (os.sleep seconds s).handed)
  pub get_statistics_lem :
      (s : S) → ((os.get_statistics s).result.0 ≡ 0) × ((os.get_statistics s).handed ≡ [])
