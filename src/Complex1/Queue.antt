-- ===== src/Complex1/Queue.antt =====
-- led/complex1/LocalMessageQueuePOSIX10031c.h and led/complex1/MessageQueueT.h: message queues over
-- pools of buffers. A buffer is known by its address, and NULL is 0; `std::list` is a list.
pub mod Invariant
pub mod Writes
pub mod Reads
pub mod Fifo
pub mod Poll
pub mod Available
pub mod Abstract
pub mod View
mod Tests
use rtems_examples.Common.{
  ℕ, zero, suc, ◌+◌, Bool, true, false, Option, none, some, List, [], ◌∷◌, ◌++◌, if◌then◌else◌,
  ◌==◌, leb, not,
}
use rtems_examples.Common.Lists.{length}

-- The objects of the class, with the mutex and the buffers that `new` has made: `cell` is what
-- the addresses below `fresh` hold.
pub record Queue {ℓ} (A : Type ℓ) : Type ℓ where
  pub depth : ℕ
  pub inactive : List ℕ
  pub pending : List ℕ
  pub locked : Bool
  pub fresh : ℕ
  pub cell : ℕ → A

pub data Exception : Type 0 where
  lock_failed unlock_failed signal_failed wait_failed : Exception

-- `stuck` is a thread that waits for ever, `undefined` is a use of `std::list` that C++ leaves
-- undefined: `front` or `pop_front` of an empty list.
pub data Outcome {κ} (B : Type κ) : Type κ where
  returned : B → Outcome B
  thrown : Exception → Outcome B
  stuck undefined : Outcome B

-- What the pthread calls return during an operation.
pub record Os : Type 0 where
  pub lock_status : ℕ
  pub unlock_status : ℕ
  pub signal_status : ℕ
  pub wait_status : ℕ

abbrev pub M {ℓ κ} : Type ℓ → Type κ → Type (ℓ ⊔ κ)
M A B = Queue A → Outcome B × Queue A

module _ {ℓ} {A : Type ℓ} where
  abbrev pub pure {κ} : {B : Type κ} → B → M A B
  pure b q = (returned b, q)

  abbrev pub throw {κ} : {B : Type κ} → Exception → M A B
  throw e q = (thrown e, q)

  abbrev pub continue_with {κ μ} :
      {B : Type κ} {C : Type μ} → Outcome B × Queue A → (B → M A C) → Outcome C × Queue A
  continue_with (returned b, q) f = f b q
  continue_with (thrown e, q) f = (thrown e, q)
  continue_with (stuck, q) f = (stuck, q)
  continue_with (undefined, q) f = (undefined, q)

  infixl 5 ◌>>=◌ ◌>>◌
  abbrev pub ◌>>=◌ {κ μ} : {B : Type κ} {C : Type μ} → M A B → (B → M A C) → M A C
  ◌>>=◌ m f q = continue_with (m q) f

  abbrev pub ◌>>◌ {μ} : {C : Type μ} → M A (Unit {0}) → M A C → M A C
  m >> k = m >>= λ _. k

  -- A thread that locks a mutex which is locked waits; the operations are made one after another, so
  -- that nobody unlocks it then.
  pub lock : Os → M A (Unit {0})
  lock os q =
      if os.lock_status == 0
      then (if q.locked then (stuck, q) else (returned tt, record q { locked = true }))
      else throw lock_failed q

  pub unlock : Os → M A (Unit {0})
  unlock os q =
      if os.unlock_status == 0
      then (returned tt, record q { locked = false })
      else throw unlock_failed q

  pub signal : Os → M A (Unit {0})
  signal os q = if os.signal_status == 0 then (returned tt, q) else throw signal_failed q

  -- The first inactive buffer, or a new one that holds `blank`.
  pub take_buffer : A → M A ℕ
  take_buffer blank q = elim q.inactive [
    | [] ↦ (
      returned q.fresh,
      record q { fresh = q.fresh + 1; cell = λ p. if p == q.fresh then blank else q.cell p },
    )
    | m ∷ rest ↦ (returned m, record q { inactive = rest })
  ]

  pub allocate : Os → A → M A ℕ
  unfolding lock unlock take_buffer
  allocate os blank = do lock os; m ← take_buffer blank; unlock os; pure m

  pub push_inactive : ℕ → M A (Unit {0})
  push_inactive message q = (returned tt, record q { inactive = q.inactive ++ message ∷ [] })

  pub deallocate : Os → ℕ → M A (Unit {0})
  unfolding lock unlock push_inactive
  deallocate os message = do lock os; push_inactive message; unlock os

  pub push_pending : ℕ → M A (Unit {0})
  push_pending message q = (returned tt, record q { pending = q.pending ++ message ∷ [] })

  -- The part of `Send` behind `lock`.
  pub send_locked : Os → ℕ → M A Bool
  unfolding unlock signal push_pending
  send_locked os message q =
      if leb q.depth (length q.pending)
      then (do unlock os; pure false) q
      else (do push_pending message; signal os; unlock os; pure true) q

  pub send : Os → ℕ → M A Bool
  unfolding lock send_locked
  send os zero = pure false
  send os (suc p) = do lock os; send_locked os (suc p)

  -- `pop_front` behind the choice of `m`.
  pub pop_front : ℕ → M A ℕ
  pop_front m q = elim q.pending [
    | [] ↦ (undefined, q)
    | x ∷ rest ↦ (returned m, record q { pending = rest })
  ]

  -- The loop of `Receive`. `wakes` are the queues that `wait` finds when it returns, other threads
  -- having run and the mutex being locked again; `m` is not set before the first message, and holds what was in its storage.
  pub receive_loop : Os → List (Queue A) → ℕ → M A ℕ
  receive_loop os [] m q = (stuck, q)
  receive_loop os (woken ∷ wakes) m q =
      let held = record woken { locked = true } in
      let again = receive_loop os wakes m held in
      if os.wait_status == 0
      then elim held.pending [
        | [] ↦ if m == 0 then again else pop_front m held
        | x ∷ rest ↦
            let retry = receive_loop os wakes x held in if x == 0 then retry else pop_front x held
      ]
      else (thrown wait_failed, held)

  pub receive_locked : Os → List (Queue A) → ℕ → M A ℕ
  unfolding receive_loop pop_front
  receive_locked os wakes storage q = elim q.pending [
    | [] ↦ receive_loop os wakes storage q
    | m ∷ rest ↦ pop_front m q
  ]

  pub receive : Os → List (Queue A) → ℕ → M A ℕ
  unfolding lock unlock receive_locked
  receive os wakes storage = do lock os; m ← receive_locked os wakes storage; unlock os; pure m

  pub poll_locked : M A ℕ
  poll_locked q = if length q.pending == 0 then (undefined, q) else (returned 0, q)

  pub receive_poll : Os → M A ℕ
  unfolding lock unlock poll_locked
  receive_poll os = do lock os; m ← poll_locked; unlock os; pure m

  unfoldable pub is_available : Os → M A Bool
  unfolding lock unlock
  is_available os = do
    lock os
    retval ← λ q. (returned (not (length q.pending == 0)), q)
    unlock os
    pure retval

  pub number_pending : Os → M A ℕ
  unfolding lock unlock
  number_pending os = do lock os; size ← λ q. (returned (length q.pending), q); unlock os; pure size

  -- A converter is applied where there is one, and the bytes are copied where there is none.
  abbrev pub convert : Option (A → A) → A → A
  convert none x = x
  convert (some f) x = f x

  pub store : ℕ → A → M A (Unit {0})
  store p value q = (returned tt, record q { cell = λ i. if i == p then value else q.cell i })

  -- `MessageQueueTemplate::Write`.
  unfoldable pub write : Os → A → Option (A → A) → A → M A Bool
  unfolding allocate store send
  write os blank hton buffer = do b ← allocate os blank; store b (convert hton buffer); send os b

  -- The `try` block of `Read` around `Receive`: NULL stands for a message that was not read.
  pub caught : M A ℕ → M A ℕ
  caught m q = elim (m q).0 [ thrown e ↦ (returned 0, (m q).1) | _ ↦ m q ]

  -- What `Read` does with the result of its `try` block. `Deallocate` stands outside the block.
  pub finish_read : Os → Option (A → A) → ℕ → M A (Option A)
  unfolding deallocate
  finish_read os ntoh zero q = pure none q
  finish_read os ntoh (suc p) q =
      let buffer = convert ntoh (q.cell (suc p)) in (do deallocate os (suc p); pure (some buffer)) q

  -- `MessageQueueTemplate::Read`: `none` is the result false, and `some` holds what `*buffer` gets.
  unfoldable pub read : Os → List (Queue A) → ℕ → Option (A → A) → M A (Option A)
  unfolding receive caught finish_read
  read os wakes storage ntoh = do b ← caught (receive os wakes storage); finish_read os ntoh b
