-- ===== src/Blink/Messages/Alternation.antt =====
-- The switches of msg_server and posix_message_server, in every reachable state.
use rtems_examples.Common.{ℕ, ◌≡◌, List, [], ◌∷◌}
use rtems_examples.Blink.{Led, by_count, next_count, DiffersFrom, Alternates}
use rtems_examples.Blink.Messages.{Server, at_receive, waiting, received, State}

-- The counts that follow each other, up to the sender's.
abbrev Follow : List ℕ → ℕ → Type 0
Follow [] c = Unit
Follow (m ∷ []) c = next_count m ≡ c
Follow (m ∷ n ∷ q) c = (next_count m ≡ n) × Follow (n ∷ q) c

-- The count that the LED shows next.
abbrev next_shown : List ℕ → ℕ → ℕ
next_shown [] c = c
next_shown (m ∷ q) c = m

-- The messages on their way to the LED; a server that waits has found the queue empty.
abbrev OnItsWay : Server → List ℕ → ℕ → List Led → Type 0
OnItsWay at_receive q c ls = Follow q c × DiffersFrom (by_count (next_shown q c)) ls
OnItsWay waiting q c ls = (q ≡ []) × DiffersFrom (by_count c) ls
OnItsWay (received m) q c ls = Follow (m ∷ q) c × DiffersFrom (by_count m) ls

pub record IsOrderly (s : State) : Type 0 where
  pub turns : Alternates s.leds
  pub way : OnItsWay s.server s.queue s.count s.leds

-- Nothing is said once a send has failed.
abbrev IsOrderlySoFar : State → Type 0
IsOrderlySoFar s = s.failed ≡ 0 → IsOrderly s
