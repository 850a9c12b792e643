-- ===== src/Blink/Event/Order.antt =====
-- led/event_server/init.c: the switches of the server, however late it runs.
use rtems_examples.Common.{◌≡◌, refl, sym, ◌∙◌, arith, List, ◌∷◌}
use rtems_examples.Blink.{Led, off, on, flip, by_count, DiffersFrom, Alternates}
use rtems_examples.Blink.Parity.{by_count-next_count}
use rtems_examples.Blink.Event.{
  Events, no_event, event, both, Server, at_receive, waiting, received, State, add_event,
  send_event, send_step, receive_event, handle_events, server_step, sends, serves, Reach, here,
  next, start,
}

-- The pending events follow on the switches, and the next to be sent follows on them. Both at once
-- will be reported.
abbrev Follows : Events → List Led → Led → Type 0
Follows no_event leds led = DiffersFrom led leds
Follows (event e) leds led = DiffersFrom e leds × (led ≡ flip e)
Follows both leds led = Unit

abbrev IsNext : Server → Events → List Led → Led → Type 0
IsNext at_receive events leds led = Follows events leds led
IsNext waiting events leds led = (events ≡ no_event) × DiffersFrom led leds
IsNext (received no_event) events leds led = ⊥
IsNext (received (event e)) events leds led = DiffersFrom e leds × Follows events (e ∷ leds) led
IsNext (received both) events leds led = Unit

abbrev IsOrderly : State → Type 0
IsOrderly s =
    s.incorrect ≡ 0 → Alternates s.leds × IsNext s.server s.pending s.leds (by_count s.count)

add-Follows :
    (events : Events) (leds : List Led) (led : Led)
    → Follows events leds led
    → Follows (add_event led events) leds (flip led)
unfolding add_event
add-Follows no_event leds led h = (h, refl)
add-Follows (event off) leds off h = cc
add-Follows (event off) leds on h = tt
add-Follows (event on) leds off h = tt
add-Follows (event on) leds on h = cc
add-Follows both leds off h = tt
add-Follows both leds on h = tt

send-IsNext :
    (sv : Server) (s : State) (led : Led)
    → s.server ≡ sv
    → IsNext sv s.pending s.leds led
    → IsNext (send_event led sv s).server (send_event led sv s).pending s.leds (flip led)
unfolding send_event
send-IsNext at_receive s led e h = rw e (add-Follows s.pending s.leds led h)
send-IsNext waiting s led e h = (h.1, rw h.0 refl)
send-IsNext (received no_event) s led e h = elim h [ ]
send-IsNext (received (event l)) s led e h = rw e (h.0, add-Follows s.pending (l ∷ s.leds) led h.1)
send-IsNext (received both) s led e h = rw e tt

send-kept :
    (sv : Server) (s : State) (led : Led)
    → ((send_event led sv s).leds ≡ s.leds)
      × ((send_event led sv s).count ≡ s.count)
      × ((send_event led sv s).incorrect ≡ s.incorrect)
unfolding send_event
send-kept at_receive s led = (refl, refl, refl)
send-kept waiting s led = (refl, refl, refl)
send-kept (received events) s led = (refl, refl, refl)

send_step-IsOrderly : (s : State) → IsOrderly s → IsOrderly (send_step s)
unfolding send_step
send_step-IsOrderly s k none =
    let (leds, count, incorrect) = send-kept s.server s (by_count s.count) in
    let (turns, follows) = k (sym incorrect ∙ none) in
    rw (leds, count, by_count-next_count s.count)
      (turns, send-IsNext s.server s (by_count s.count) refl follows)

receive-IsOrderly :
    (events : Events) (s : State)
    → s.server ≡ at_receive
    → s.pending ≡ events
    → IsOrderly s
    → IsOrderly (receive_event events s)
unfolding receive_event
receive-IsOrderly no_event s e p k none =
    let (turns, follows) = k none in let h = rw (e, p) at follows in (turns, (p, h))
receive-IsOrderly (event led) s e p k none =
    let (turns, follows) = k none in let h = rw (e, p) at follows in (turns, h)
receive-IsOrderly both s e p k none = ((k none).0, tt)

handle-IsOrderly :
    (events : Events) (s : State)
    → s.server ≡ received events
    → IsOrderly s
    → IsOrderly (handle_events events s)
unfolding handle_events
handle-IsOrderly no_event s e k none = absurd (omega arith)
handle-IsOrderly (event led) s e k none =
    let (turns, follows) = k none in let h = rw e at follows in ((h.0, turns), h.1)
handle-IsOrderly both s e k none = absurd (omega arith)

server_step-IsOrderly :
    (sv : Server) (s : State) → s.server ≡ sv → IsOrderly s → IsOrderly (server_step sv s)
unfolding server_step
server_step-IsOrderly at_receive s e k none = receive-IsOrderly s.pending s e refl k none
server_step-IsOrderly waiting s e k none = k none
server_step-IsOrderly (received events) s e k none = handle-IsOrderly events s e k none

Reach-IsOrderly : {s : State} → Reach start s → IsOrderly s
unfolding start
Reach-IsOrderly here none = (tt, tt)
Reach-IsOrderly (next r (sends s)) none = send_step-IsOrderly s (Reach-IsOrderly r) none
Reach-IsOrderly (next r (serves s)) none =
    server_step-IsOrderly s.server s refl (Reach-IsOrderly r) none

-- However late the server of event_server runs, the switches that it has made alternate as long as it
-- has reported no incorrect event set.
pub event-Reach-Alternates : {s : State} → Reach start s → s.incorrect ≡ 0 → Alternates s.leds
event-Reach-Alternates r none = (Reach-IsOrderly r none).0
