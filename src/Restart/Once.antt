-- ===== src/Restart/Once.antt =====
-- posix_api/psx_task_restart/psx_task_restart.c: how often the faulting thread is restarted.
use rtems_examples.Common.{ℕ, suc, ◌≡◌, refl, ap, arith, ◌≤◌, ◌≢◌, Bool, true, false, ◌⊎◌, inl, inr}
use rtems_examples.Restart.{
  Health, created, at_receive, at_restart, Faulting, absent, entered_0, entered_1, in_loop, Program,
  running, succeeded, assert_failed, State, start_faulting_thread, enter_health, receive_event,
  restart_faulting, send_event, finish, Step, starts, enters, receives, restarts, sends, finishes,
  main_wakes, Reach, here, next, start,
}

-- What the two threads have done, by where they are and whether the event is pending: before the
-- event, between the event and its receipt, between that and the restart, and behind the restart.
abbrev Phase : Health → Faulting → Bool → ℕ → ℕ → Type 0
Phase h absent e r n = (e ≡ false) × (h ≢ at_restart) × (r ≡ 0) × (n ≡ 0)
Phase h entered_0 e r n = (e ≡ false) × (h ≢ at_restart) × (r ≡ 0) × (n ≡ 0)
Phase created in_loop e r n = (e ≡ true) × (r ≡ 0) × (n ≡ 1)
Phase at_receive in_loop e r n = (e ≡ true) × (r ≡ 0) × (n ≡ 1)
Phase at_restart in_loop e r n = (e ≡ false) × (r ≡ 0) × (n ≡ 1)
Phase h entered_1 e r n = (e ≡ false) × (h ≡ at_receive) × (r ≡ 1) × (n ≡ 1)

-- The program succeeds only in the restarted thread.
abbrev Ended : Program → Faulting → Type 0
Ended running f = Unit
Ended succeeded f = f ≡ entered_1
Ended assert_failed f = Unit

abbrev IsOrderly : State → Type 0
IsOrderly s =
    Phase s.health s.faulting s.event s.restart_count s.event_count × Ended s.program s.faulting

entered : (f : Faulting) (e : Bool) (r n : ℕ) → Phase created f e r n → Phase at_receive f e r n
entered absent e r n (a, b, c, k) = (a, λ x. cc, c, k)
entered entered_0 e r n (a, b, c, k) = (a, λ x. cc, c, k)
entered entered_1 e r n h = absurd (cc)
entered in_loop e r n h = h

received : (f : Faulting) (r n : ℕ) → Phase at_receive f true r n → Phase at_restart f false r n
received absent r n h = absurd (cc)
received entered_0 r n h = absurd (cc)
received entered_1 r n h = absurd (cc)
received in_loop r n (a, b, c) = (refl, b, c)

restarted :
    (f : Faulting) (e : Bool) (r n : ℕ)
    → Phase at_restart f e r n
    → Phase at_receive entered_1 e (suc r) n
restarted absent e r n (a, b, c, k) = absurd (b refl)
restarted entered_0 e r n (a, b, c, k) = absurd (b refl)
restarted entered_1 e r n h = absurd (cc)
restarted in_loop e r n (a, b, c) = (a, refl, ap suc b, c)

sent : (h : Health) (e : Bool) (r n : ℕ) → Phase h entered_0 e r n → Phase h in_loop true r (suc n)
sent created e r n (a, b, c, k) = (refl, c, ap suc k)
sent at_receive e r n (a, b, c, k) = (refl, c, ap suc k)
sent at_restart e r n (a, b, c, k) = absurd (b refl)

Step-IsOrderly : {s t : State} → Step s t → IsOrderly s → IsOrderly t
unfolding start_faulting_thread enter_health receive_event restart_faulting send_event finish
Step-IsOrderly (starts s p f) k = (rw f at k.0, rw p tt)
Step-IsOrderly (enters s p h) k =
    (entered s.faulting s.event s.restart_count s.event_count (rw h at k.0), rw p tt)
Step-IsOrderly (receives s p h e) k =
    (received s.faulting s.restart_count s.event_count (rw (h, e) at k.0), rw p tt)
Step-IsOrderly (restarts s p h) k =
    (restarted s.faulting s.event s.restart_count s.event_count (rw h at k.0), rw p tt)
Step-IsOrderly (sends s p f) k =
    (sent s.health s.event s.restart_count s.event_count (rw f at k.0), rw p tt)
Step-IsOrderly (finishes s p f) k = (k.0, f)
Step-IsOrderly (main_wakes s p f) k = (k.0, tt)

Reach-IsOrderly : {s : State} → Reach start s → IsOrderly s
unfolding start
Reach-IsOrderly here = ((refl, λ x. cc, refl, refl), tt)
Reach-IsOrderly (next r st) = Step-IsOrderly st (Reach-IsOrderly r)

restarts_bounded :
    (h : Health) (f : Faulting) (e : Bool) (r n : ℕ) → Phase h f e r n → (r ≤ n) × (n ≤ 1)
restarts_bounded h absent e r n (a, b, c, k) = (omega arith, omega arith)
restarts_bounded h entered_0 e r n (a, b, c, k) = (omega arith, omega arith)
restarts_bounded created in_loop e r n (a, b, c) = (omega arith, omega arith)
restarts_bounded at_receive in_loop e r n (a, b, c) = (omega arith, omega arith)
restarts_bounded at_restart in_loop e r n (a, b, c) = (omega arith, omega arith)
restarts_bounded h entered_1 e r n (a, b, c, k) = (omega arith, omega arith)

success_restarted :
    (p : Program) (s : State)
    → s.program ≡ p
    → IsOrderly s
    → (s.program ≢ succeeded) ⊎ (s.restart_count ≡ 1)
success_restarted running s e k = inl (λ x. cc)
success_restarted succeeded s e k =
    let f : s.faulting ≡ entered_1 = rw e at k.1 in let (a, b, c, d) = rw f at k.0 in inr c
success_restarted assert_failed s e k = inl (λ x. cc)

-- In whatever order the threads run, the event is sent at most once, there is no restart without it,
-- and the program has not succeeded unless there was exactly one restart.
pub restart-Reach-once :
    {s : State}
    → Reach start s
    → (s.restart_count ≤ s.event_count)
      × (s.event_count ≤ 1)
      × ((s.program ≢ succeeded) ⊎ (s.restart_count ≡ 1))
restart-Reach-once {s} r =
    let k = Reach-IsOrderly r in
    let bounds = restarts_bounded s.health s.faulting s.event s.restart_count s.event_count k.0 in
    (bounds.0, bounds.1, success_restarted s.program s refl k)
