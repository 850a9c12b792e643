-- ===== src/Complex1/Queue/Poll.antt =====
-- `Send`, `Receive` and `Read` of led/complex1/LocalMessageQueuePOSIX10031c.h and
-- led/complex1/MessageQueueT.h when pthread calls fail.
use rtems_examples.Common.{
  ℕ, suc, ◌<◌, ◌≡◌, ◌≢◌, refl, ap, sym, arith, Bool, true, false, Option, none, List, [], ◌∷◌, ◌++◌,
}
use rtems_examples.Common.Lists.{length}
use rtems_examples.Complex1.Queue.{
  Queue, Outcome, returned, thrown, stuck, Os, lock_failed, signal_failed, send, write, read,
  receive, caught, is_available,
}

not_locked : false ≢ true
not_locked e = cc

module _ {ℓ} {A : Type ℓ} where
  module _ (depth : ℕ) (inactive pending : List ℕ) (fresh : ℕ) (cell : ℕ → A) where
    abbrev queue : Bool → Queue A
    queue locked = record {
      depth = depth;
      inactive = inactive;
      pending = pending;
      locked = locked;
      fresh = fresh;
      cell = cell;
    }

    sent_signal_failed :
        (os : Os) (p : ℕ) (locked : Bool)
        → locked ≡ false
        → os.lock_status ≡ 0
        → os.signal_status ≢ 0
        → length pending < depth
        → send os (suc p) (queue locked) ≡ (
          thrown signal_failed,
          record (queue locked) { locked = true; pending = pending ++ suc p ∷ [] },
        )
    unfolding send
    sent_signal_failed os p true free ok fails room = absurd (not_locked (sym free))
    sent_signal_failed os p false free ok fails room = ground arith

    locked_write :
        (os : Os) (blank : A) (hton : Option (A → A)) (x : A) (locked : Bool)
        → locked ≡ true
        → os.lock_status ≡ 0
        → (write os blank hton x (queue locked)).0 ≡ stuck
    unfolding write
    locked_write os blank hton x false h ok = absurd (not_locked h)
    locked_write os blank hton x true h ok = rw ok refl

    locked_read :
        (os : Os) (wakes : List (Queue A)) (storage : ℕ) (ntoh : Option (A → A)) (locked : Bool)
        → locked ≡ true
        → os.lock_status ≡ 0
        → (read os wakes storage ntoh (queue locked)).0 ≡ stuck
    unfolding read
    locked_read os wakes storage ntoh false h ok = absurd (not_locked h)
    locked_read os wakes storage ntoh true h ok = rw ok refl

    locked_available :
        (os : Os) (locked : Bool)
        → locked ≡ true
        → os.lock_status ≡ 0
        → (is_available os (queue locked)).0 ≡ stuck
    unfolding is_available
    locked_available os false h ok = absurd (not_locked h)
    locked_available os true h ok = rw ok refl

  -- What a failed signal leaves behind: the message `p` is queued at the end, and every later call
  -- of `Write`, `Read` and `IsAvailable` waits for the mutex for ever.
  pub record Jammed (before : Queue A) (p : ℕ) (os : Os) (r : Outcome Bool × Queue A) : Type ℓ where
    pub exception : r.0 ≡ thrown signal_failed
    pub queued : r.1.pending ≡ before.pending ++ p ∷ []
    pub writes : (blank x : A) (hton : Option (A → A)) → (write os blank hton x r.1).0 ≡ stuck
    pub reads :
        (wakes : List (Queue A)) (storage : ℕ) (ntoh : Option (A → A))
        → (read os wakes storage ntoh r.1).0 ≡ stuck
    pub asks : (is_available os r.1).0 ≡ stuck

  jam :
      (q : Queue A) (p : ℕ) (os : Os) (r : Outcome Bool × Queue A)
      → r ≡ (thrown signal_failed, record q { locked = true; pending = q.pending ++ suc p ∷ [] })
      → os.lock_status ≡ 0
      → Jammed q (suc p) os r
  jam q p os (o, q') e ok = record {
    exception = ap (λ r. r.0) e;
    queued = ap (λ r. r.1.pending) e;
    writes = λ blank x hton.
        locked_write q'.depth q'.inactive q'.pending q'.fresh q'.cell os blank hton x q'.locked
          (ap (λ r. r.1.locked) e) ok;
    reads = λ wakes storage ntoh.
        locked_read q'.depth q'.inactive q'.pending q'.fresh q'.cell os wakes storage ntoh q'.locked
          (ap (λ r. r.1.locked) e) ok;
    asks =
        locked_available q'.depth q'.inactive q'.pending q'.fresh q'.cell os q'.locked
          (ap (λ r. r.1.locked) e) ok;
  }

  -- When `pthread_cond_signal` fails inside `Send` with the mutex free and room in the queue, the
  -- caller gets an exception although the message is queued, and the mutex stays locked: every later
  -- `Write`, `Read` and `IsAvailable` whose call of `pthread_mutex_lock` returns no error waits for
  -- ever.
  pub send-signal_failed :
      (q : Queue A) (os later : Os) (p : ℕ)
      → q.locked ≡ false
      → os.lock_status ≡ 0
      → os.signal_status ≢ 0
      → length q.pending < q.depth
      → later.lock_status ≡ 0
      → Jammed q (suc p) later (send os (suc p) q)
  send-signal_failed q os later p free ok fails room ok' =
      jam q p later (send os (suc p) q)
        (sent_signal_failed q.depth q.inactive q.pending q.fresh q.cell os p q.locked free ok fails
          room)
        ok'

  receive_failed :
      (q : Queue A) (os : Os) (wakes : List (Queue A)) (storage : ℕ)
      → os.lock_status ≢ 0
      → receive os wakes storage q ≡ (thrown lock_failed, q)
  unfolding receive
  receive_failed q os wakes storage fails = ground arith

  no_reading :
      (q : Queue A) (os : Os) (wakes : List (Queue A)) (storage : ℕ) (ntoh : Option (A → A))
      → receive os wakes storage q ≡ (thrown lock_failed, q)
      → read os wakes storage ntoh q ≡ (returned none, q)
  unfolding read
  no_reading q os wakes storage ntoh e = rw (e, caught) (ap (λ r. (returned none, r.1)) e)

  -- `Read` turns an exception of `Receive` into its result false: a mutex that cannot be locked
  -- leaves the queue as it is.
  pub read-lock_failed :
      (q : Queue A) (os : Os) (wakes : List (Queue A)) (storage : ℕ) (ntoh : Option (A → A))
      → os.lock_status ≢ 0
      → read os wakes storage ntoh q ≡ (returned none, q)
  read-lock_failed q os wakes storage ntoh fails =
      no_reading q os wakes storage ntoh (receive_failed q os wakes storage fails)
