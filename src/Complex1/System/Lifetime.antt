-- ===== src/Complex1/System/Lifetime.antt =====
-- The constructors and the destructors of led/complex1: LocalMessageQueuePOSIX10031c.h,
-- MessageQueueT.h and ledServer.h. The messages on `std::cerr` of the queue are left out.
use rtems_examples.Common.{
  refl, ℕ, Bool, false, not, List, [], ◌∷◌, ◌++◌, ◌==◌, if◌then◌else◌, arith,
}
use rtems_examples.Complex1.Queue.{Queue}
use rtems_examples.Complex1.Queue.Invariant.{IsValid}
use rtems_examples.Complex1.Server.{Message}

-- What a constructor or a destructor of the queue throws.
pub data Failure : Type 0 where
  cond_init_failed mutex_init_failed cond_destroy_failed mutex_destroy_failed : Failure

pub data Result {ℓ} (B : Type ℓ) : Type ℓ where
  made : B → Result B
  failed : Failure → Result B

module _ {ℓ} {A : Type ℓ} where
  -- The members behind the constructor; no address but NULL is in use.
  abbrev pub empty_queue : (ℕ → A) → ℕ → Queue A
  empty_queue cell depth = record {
    depth = depth;
    inactive = [];
    pending = [];
    locked = false;
    fresh = 1;
    cell = cell;
  }

  pub empty_queue-IsValid : (cell : ℕ → A) (depth : ℕ) → IsValid (empty_queue cell depth)
  empty_queue-IsValid cell depth = record {
    single = λ a. omega arith;
    made = λ a h. omega arith;
    not_null = omega arith;
    ahead = omega arith;
    free = refl;
  }

  -- The constructor, where `cell` is what the memory holds.
  pub new_queue : ℕ → ℕ → (ℕ → A) → ℕ → Result (Queue A)
  new_queue cond_status mutex_status cell depth =
      if not (cond_status == 0)
      then failed cond_init_failed
      else if not (mutex_status == 0)
      then failed mutex_init_failed
      else made (empty_queue cell depth)

-- The destructor of the queue.
unfoldable pub delete_queue : ℕ → ℕ → Result (Unit {0})
delete_queue cond_status mutex_status =
    if not (cond_status == 0)
    then failed cond_destroy_failed
    else if not (mutex_status == 0)
    then failed mutex_destroy_failed
    else made tt

-- The lines on `std::cerr`, with the status that they print.
pub data Line : Type 0 where
  create_failed name_failed : ℕ → Line

pub record LedServer : Type 0 where
  pub queue : Queue Message
  pub has_thread : Bool
  pub lines : List Line

-- The part of `LEDServer` behind the queue. A thread that is not created is named all the same.
pub led_server_thread : ℕ → ℕ → Queue Message → LedServer
led_server_thread create_status name_status queue = record {
  queue = queue;
  has_thread = create_status == 0;
  lines =
      (if create_status == 0 then [] else create_failed create_status ∷ [])
      ++ (if name_status == 0 then [] else name_failed name_status ∷ []);
}

-- The constructor `LEDServer`.
unfoldable pub led_server : ℕ → ℕ → ℕ → ℕ → (ℕ → Message) → Result LedServer
unfolding new_queue led_server_thread
led_server cond_status mutex_status create_status name_status cell =
    elim (new_queue cond_status mutex_status cell 10) [
      | made queue ↦ made (led_server_thread create_status name_status queue)
      | failed f ↦ failed f
    ]
