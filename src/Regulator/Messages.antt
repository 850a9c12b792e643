-- ===== src/Regulator/Messages.antt =====
-- misc/regulator/regulator_example.c: the texts of the messages, and the lines that show them.
use rtems_examples.Common.{
  ℕ, zero, suc, ◌+◌, ◌/◌, ◌%◌, ◌≤◌, ◌≡◌, refl, ap, arith, List, [], ◌∷◌, ◌++◌, ltb, Bool-cases, inl,
  inr,
}
use rtems_examples.Common.Lists.{length, length-append, take-all}
use rtems_examples.Regulator.Library.{Text}
use rtems_examples.Regulator.{
  text, snprintf, Line, start_line, end_line, burst_line, message_line, statistics_line, digits,
  message_prefix,
}

-- The messages that the deliverer has printed.
unfoldable pub heard : List Line → List Text
heard [] = []
heard (message_line tv_sec tv_nsec t ∷ lines) = t ∷ heard lines
heard (start_line ∷ lines) = heard lines
heard (end_line ∷ lines) = heard lines
heard (burst_line burst ∷ lines) = heard lines
heard (statistics_line stats ∷ lines) = heard lines

pub heard-append : (l k : List Line) → heard (l ++ k) ≡ heard l ++ heard k
unfolding heard
heard-append [] k = refl
heard-append (message_line tv_sec tv_nsec t ∷ l) k = ap (λ m. t ∷ m) (heard-append l k)
heard-append (start_line ∷ l) k = heard-append l k
heard-append (end_line ∷ l) k = heard-append l k
heard-append (burst_line burst ∷ l) k = heard-append l k
heard-append (statistics_line stats ∷ l) k = heard-append l k

-- The first messages, from number 0 on.
unfoldable pub messages : ℕ → List Text
messages zero = []
messages (suc n) = messages n ++ text n ∷ []

digits_short : (places n : ℕ) → length (digits places n) ≤ places
unfolding digits
digits_short zero n = omega arith
digits_short (suc places) n = elim (Bool-cases (ltb n 10)) [
  | inl e ↦ rw e (omega arith)
  | inr e ↦ rw e (
      omega (
        arith,
        length-append {0} (digits places (n / 10)) ((b'0' + n % 10) ∷ []),
        digits_short places (n / 10),
      ))
]

pub text_short : (n : ℕ) → length (text n) ≤ 18
unfolding text message_prefix
text_short n = omega (arith, digits_short 10 n)

pub messages_step : (n : ℕ) → messages n ++ text n ∷ [] ≡ messages (n + 1)
unfolding messages
messages_step n = ground arith

-- No message is cut off.
pub snprintf-text : (n : ℕ) → snprintf 32 (text n) ≡ (text n, length (text n))
unfolding snprintf
snprintf-text n =
    ap (λ t. (t, length (text n))) (take-all 31 (text n) (omega (arith, text_short n)))
