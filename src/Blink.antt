-- ===== src/Blink.antt =====
-- led: the examples that turn an LED off and on, once a second. `LED_ON` and `LED_OFF` of led/led.h
-- are the values of `Led`; a run shows them in the order in which they happen.
pub mod Parity
pub mod Single
pub mod Messages
pub mod Condition
pub mod Event
pub mod Rotation
pub mod Token
pub mod Timer
use rtems_examples.Common.{
  ℕ, zero, suc, ◌%◌, ◌^◌, ◌≡◌, Bool, true, false, List, [], ◌∷◌, ◌==◌, if◌then◌else◌,
}

pub data Led : Type 0 where
  off : Led
  on : Led

abbrev pub flip : Led → Led
flip off = on
flip on = off

-- The server's choice in msg_server, event_server, ratemon1 and others.
unfoldable pub by_count : ℕ → Led
by_count count = if count % 2 == 0 then off else on

-- The next value of a `uint32_t` count.
abbrev pub next_count : ℕ → ℕ
next_count count = (suc count) % 2 ^ 32

-- n switches in turn, the given one first.
abbrev pub alternate : ℕ → Led → List Led
alternate zero led = []
alternate (suc n) led = led ∷ alternate n (flip led)

-- No two switches that follow one another are the same.
abbrev pub DiffersFrom : Led → List Led → Type 0
DiffersFrom led [] = Unit
DiffersFrom led (l ∷ ls) = led ≡ flip l

abbrev pub Alternates : List Led → Type 0
Alternates [] = Unit
Alternates (l ∷ ls) = DiffersFrom l ls × Alternates ls
