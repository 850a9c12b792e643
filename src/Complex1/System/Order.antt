-- ===== src/Complex1/System/Order.antt =====
-- led/complex1: the LED server on its message queue does what its thread does on a bounded first-in
-- first-out queue of messages.
use rtems_examples.Common.{
  ℕ, ◌≡◌, refl, ◌∙◌, sym, ap, ap₂, Bool, true, false, if◌then◌else◌, Option, none, some, List, [],
  ◌∷◌, inl, inr,
}
use rtems_examples.Complex1.Queue.{
  Queue, Outcome, returned, thrown, stuck, undefined, pure, continue_with,
}
use rtems_examples.Complex1.Queue.Invariant.{all_succeed, IsValid, contents}
use rtems_examples.Complex1.Queue.Available.{released, released-IsValid}
use rtems_examples.Complex1.Server.{Message, Thread, Action, handle, blink, thread_body}
use rtems_examples.Complex1.System.{
  Event, calls, runs, Locals, act_on, server_round, run_deleted, run_system,
}
use rtems_examples.Complex1.System.Rounds.{
  found, list_cases, option_cases, run, called, served, idle_round,
}

-- Whether the thread leaves its loop on what its rounds find.
pub body_ends : List (Option Message) → Thread → Bool
body_ends [] t = false
body_ends (none ∷ rest) t = body_ends rest (blink t).0
body_ends (some m ∷ rest) t = elim (handle m t) [
  | none ↦ true
  | some t' ↦ body_ends rest (blink t').0
]

-- Whether the queue is used behind its end: by a call, or by a round of a thread in its loop.
pub uses_queue : List Event → Bool → Bool
uses_queue [] ended = false
uses_queue (calls m ∷ later) ended = true
uses_queue (runs ∷ later) true = uses_queue later true
uses_queue (runs ∷ later) false = true

-- What the thread does on what it finds, where the queue is deleted behind that.
pub session : List Event → List (Option Message) → Thread → Outcome (List Action)
unfolding thread_body body_ends uses_queue
session later l t =
    if uses_queue later (body_ends l t) then undefined else returned (thread_body l t)

cons_outcome : Action → Outcome (List Action) → Outcome (List Action)
cons_outcome action (returned l) = returned (action ∷ l)
cons_outcome action (thrown x) = thrown x
cons_outcome action stuck = stuck
cons_outcome action undefined = undefined

deleted_ended :
    (later : List Event)
    → run_deleted later none ≡ (if uses_queue later true then undefined else returned [])
unfolding run_deleted uses_queue
deleted_ended [] = refl
deleted_ended (calls m ∷ later) = refl
deleted_ended (runs ∷ later) = deleted_ended later

deleted_running :
    (later : List Event) (locals : Locals)
    → run_deleted later (some locals) ≡ (if uses_queue later false then undefined else returned [])
unfolding run_deleted uses_queue
deleted_running [] locals = refl
deleted_running (calls m ∷ later) locals = refl
deleted_running (runs ∷ later) locals = refl

cons_if :
    (b : Bool) (action : Action) (l : List Action)
    → cons_outcome action (if b then undefined else returned l)
      ≡ (if b then undefined else returned (action ∷ l))
unfolding cons_outcome
cons_if true action l = refl
cons_if false action l = refl

session-idle :
    (later : List Event) (rest : List (Option Message)) (t : Thread)
    → cons_outcome (blink t).1 (session later rest (blink t).0) ≡ session later (none ∷ rest) t
unfolding session body_ends thread_body
session-idle later rest t =
    cons_if (uses_queue later (body_ends rest (blink t).0)) (blink t).1
      (thread_body rest (blink t).0)

session-leaves :
    (later : List Event) (m : Message) (rest : List (Option Message)) (t : Thread)
    → handle m t ≡ none
    → (if uses_queue later true then undefined else returned []) ≡ session later (some m ∷ rest) t
unfolding session
session-leaves later m rest t e =
    let ends : body_ends (some m ∷ rest) t ≡ true = unfold body_ends in rw (e, body_ends) refl in
    let nothing : thread_body (some m ∷ rest) t ≡ [] =
      unfold thread_body in rw (e, thread_body) refl in
    rw (ends, nothing) refl

session-stays :
    (later : List Event) (m : Message) (rest : List (Option Message)) (t t' : Thread)
    → handle m t ≡ some t'
    → cons_outcome (blink t').1 (session later rest (blink t').0) ≡ session later (some m ∷ rest) t
unfolding session
session-stays later m rest t t' e =
    let ends : body_ends (some m ∷ rest) t ≡ body_ends rest (blink t').0 =
      unfold body_ends in rw (e, body_ends) refl in
    let acts : thread_body (some m ∷ rest) t ≡ (blink t').1 ∷ thread_body rest (blink t').0 =
      unfold thread_body in rw (e, thread_body) refl in
    cons_if (uses_queue later (body_ends rest (blink t').0)) (blink t').1
      (thread_body rest (blink t').0)
    ∙ rw (ends, acts) refl

module _ (blank : Message) (storage : ℕ) (later : List Event) where
  cons_behind :
      (action : Action) (r : Outcome (List Action) × Queue Message)
      → (continue_with r (λ actions. pure (action ∷ actions))).0 ≡ cons_outcome action r.0
  unfolding cons_outcome
  cons_behind action (returned b, q) = refl
  cons_behind action (thrown x, q) = refl
  cons_behind action (stuck, q) = refl
  cons_behind action (undefined, q) = refl

  -- Where the round leaves the loop, and where it goes on.
  round_ends :
      (events : List Event) (locals : Locals) (q q' : Queue Message)
      → server_round all_succeed blank storage locals q ≡ (returned none, q')
      → run blank storage later (runs ∷ events) (some locals) q
        ≡ run blank storage later events none q'
  unfolding run run_system
  round_ends events locals q q' e = rw (e, run, run_system) refl

  round_goes_on :
      (events : List Event) (locals after : Locals) (action : Action) (o : Outcome (List Action))
      (q q' : Queue Message)
      → server_round all_succeed blank storage locals q ≡ (returned (some (after, action)), q')
      → run blank storage later events (some after) q' ≡ o
      → run blank storage later (runs ∷ events) (some locals) q ≡ cons_outcome action o
  unfolding run run_system
  round_goes_on events locals after action o q q' e h =
      rw (e, run, run_system)
        (cons_behind action (run_system all_succeed blank storage later events (some after) q')
          ∙ ap (cons_outcome action) h)

  skipped :
      (events : List Event) (q : Queue Message)
      → run blank storage later (runs ∷ events) none q ≡ run blank storage later events none q
  unfolding run run_system
  skipped events q = refl

  -- Behind the shutdown no round does anything.
  exited :
      (events : List Event) (q : Queue Message)
      → IsValid q
      → run blank storage later events none q ≡ run_deleted later none
  exited [] q v = unfold run run_system in refl
  exited (calls m ∷ events) q v =
      let c = called blank storage later m q v in
      c.run_on events none ∙ exited events c.after c.valid
  exited (runs ∷ events) q v = skipped events q ∙ exited events q v

  act_on-none : (m : Message) (t : Thread) → handle m t ≡ none → act_on m t ≡ none
  unfolding act_on
  act_on-none m t e = rw (e, act_on) refl

  act_on-some :
      (m : Message) (t t' : Thread)
      → handle m t ≡ some t'
      → act_on m t ≡ some ((m, (blink t').0), (blink t').1)
  unfolding act_on
  act_on-some m t t' e = rw (e, act_on) refl

  -- Whatever the order of the clients' calls and of the server's rounds, the server on a
  -- well-formed queue, with pthread calls that succeed, does to the LED what the thread does on a
  -- first-in first-out queue of messages that keeps as many as the depth and drops those beyond; up
  -- to the `delete mQueue` of the destructor no outcome is an exception, a wait for ever or an
  -- undefined use of a list. Behind it the outcome is undefined exactly when a client calls, or the
  -- thread makes a round without having left its loop before.
  pub run_system-session :
      (events : List Event) (m : Message) (t : Thread) (q : Queue Message)
      → IsValid q
      → (run_system all_succeed blank storage later events (some (m, t)) q).0
        ≡ session later (found q.depth events (contents q)) t
  unfolding run found
  run_system-session [] m t q v =
      unfold run_system session thread_body body_ends in deleted_running later (m, t)
  run_system-session (calls n ∷ events) m t q v =
      let c = called blank storage later n q v in
      c.run_on events (some (m, t))
      ∙ run_system-session events m t c.after c.valid
      ∙ ap (λ d. session later (found d events (contents c.after)) t) c.same_depth
      ∙ ap (λ l. session later l t) (sym (c.scheduled events))
  run_system-session (runs ∷ events) m t q v = elim (list_cases (contents q)) [
    | inl none_left ↦
        round_goes_on events (m, t) (m, (blink t).0) (blink t).1
          (session later (found q.depth events []) (blink t).0) q (released q)
          (idle_round blank storage later m t q v none_left)
          (run_system-session events m (blink t).0 (released q) (released-IsValid q v)
            ∙ ap (λ vs. session later (found q.depth events vs) (blink t).0) none_left)
        ∙ session-idle later (found q.depth events []) t
        ∙ ap (λ vs. session later (found q.depth (runs ∷ events) vs) t) (sym none_left)
    | inr (y, ys, e) ↦
        let s = served blank storage later m y t ys q v e in
        elim (option_cases (handle y t)) [
          | inl leaves ↦
              round_ends events (m, t) q s.after
                (s.result ∙ ap (λ o. (returned o, s.after)) (act_on-none y t leaves))
              ∙ exited events s.after s.valid
              ∙ deleted_ended later
              ∙ session-leaves later y (found q.depth events ys) t leaves
              ∙ ap (λ vs. session later (found q.depth (runs ∷ events) vs) t) (sym e)
          | inr (t', stays) ↦
              round_goes_on events (m, t) (y, (blink t').0) (blink t').1
                (session later (found q.depth events ys) (blink t').0) q s.after
                (s.result ∙ ap (λ o. (returned o, s.after)) (act_on-some y t t' stays))
                (run_system-session events y (blink t').0 s.after s.valid
                  ∙ ap₂ (λ d vs. session later (found d events vs) (blink t').0) s.same_depth
                      s.rest)
              ∙ session-stays later y (found q.depth events ys) t t' stays
              ∙ ap (λ vs. session later (found q.depth (runs ∷ events) vs) t) (sym e)
        ]
  ]
