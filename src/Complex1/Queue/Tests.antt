-- ===== src/Complex1/Queue/Tests.antt =====
-- Runs of the queue of led/complex1, and the theorems at concrete queues of numbers.
use rtems_examples.Common.{ℕ, ◌+◌, ◌≡◌, ◌↔◌, refl, arith, true, false, none, some, [], ◌∷◌}
use rtems_examples.Complex1.Queue.{
  Queue, returned, undefined, Os, send, write, read, receive, receive_poll,
}
use rtems_examples.Complex1.Queue.Invariant.{all_succeed, IsValid, contents}
use rtems_examples.Complex1.Queue.Writes.{Refused, write-Refused}
use rtems_examples.Complex1.Queue.Fifo.{
  to_write, to_read, wrote, got, waits, run, answers, run-answers,
}
use rtems_examples.Complex1.Queue.Abstract.{SameAnswers, SameView, SameAnswers-SameView}
use rtems_examples.Complex1.Queue.Poll.{Jammed, send-signal_failed}

abbrev empty : Queue ℕ
empty = record { depth = 2; inactive = []; pending = []; locked = false; fresh = 1; cell = λ p. 0 }

-- Two buffers are in use: 2 holds a message, and 1 is in the pool.
abbrev one_message : Queue ℕ
one_message = record {
  depth = 1;
  inactive = 1 ∷ [];
  pending = 2 ∷ [];
  locked = false;
  fresh = 3;
  cell = λ p. p + 40;
}

abbrev double : ℕ → ℕ
double x = x + x

empty-IsValid : IsValid empty
empty-IsValid = record {
  single = λ a. omega arith;
  made = λ a h. omega arith;
  not_null = omega arith;
  ahead = omega arith;
  free = refl;
}

one_message-IsValid : IsValid one_message
one_message-IsValid = record {
  single = λ a. ground arith;
  made = λ a h. ground arith;
  not_null = omega arith;
  ahead = omega arith;
  free = refl;
}

three_writes :
    run 7
      (some double)
      none
      0
      (to_write 5 ∷ to_write 6 ∷ to_write 8 ∷ to_read ∷ to_read ∷ to_read ∷ [])
      empty
    ≡ wrote true ∷ wrote true ∷ wrote false ∷ got (some 10) ∷ got (some 12) ∷ waits ∷ []
unfolding run write read
three_writes = refl

run-answers_example :
    run 7 (some double) none 0 (to_write 5 ∷ to_read ∷ to_read ∷ []) one_message
    ≡ answers 7 (some double) none 0 1 (to_write 5 ∷ to_read ∷ to_read ∷ []) (contents one_message)
run-answers_example =
    run-answers 7 (some double) none 0 (to_write 5 ∷ to_read ∷ to_read ∷ []) one_message
      one_message-IsValid

write-Refused_example : Refused 7 none 5 one_message (write all_succeed 7 none 5 one_message)
write-Refused_example = write-Refused 7 none 5 one_message one_message-IsValid (omega arith)

-- A poll with a message pending returns NULL.
poll_message : (receive_poll all_succeed one_message).0 ≡ returned 0
unfolding receive_poll
poll_message = refl

poll_empty : (receive_poll all_succeed empty).0 ≡ undefined
unfolding receive_poll
poll_empty = refl

-- A thread that wakes and finds nothing takes the front of an empty list, unless the storage of its
-- variable happens to hold NULL.
woken_with_nothing : (receive all_succeed (empty ∷ one_message ∷ []) 9 empty).0 ≡ undefined
unfolding receive
woken_with_nothing = refl

woken_with_null : (receive all_succeed (empty ∷ one_message ∷ []) 0 empty).0 ≡ returned 2
unfolding receive
woken_with_null = refl

-- A wake-up with a message is no trouble.
woken_with_message : (receive all_succeed (one_message ∷ []) 9 empty).0 ≡ returned 2
unfolding receive
woken_with_message = refl

abbrev no_signal : Os
no_signal = record { lock_status = 0; unlock_status = 0; signal_status = 22; wait_status = 0 }

abbrev no_lock : Os
no_lock = record { lock_status = 22; unlock_status = 0; signal_status = 0; wait_status = 0 }

send-signal_failed_example : Jammed empty 4 all_succeed (send no_signal 4 empty)
send-signal_failed_example =
    send-signal_failed empty no_signal all_succeed 3 refl refl (omega arith) (omega arith) refl

-- A queue with a lost buffer and other addresses, and the same message.
abbrev other_message : Queue ℕ
other_message = record {
  depth = 1;
  inactive = [];
  pending = 5 ∷ [];
  locked = false;
  fresh = 9;
  cell = λ p. 42;
}

other_message-IsValid : IsValid other_message
other_message-IsValid = record {
  single = λ a. ground arith;
  made = λ a h. ground arith;
  not_null = omega arith;
  ahead = omega arith;
  free = refl;
}

SameAnswers-SameView_example :
    SameAnswers 0 7 one_message other_message ↔ SameView 0 7 one_message other_message
SameAnswers-SameView_example =
    SameAnswers-SameView 0 7 one_message other_message one_message-IsValid other_message-IsValid
