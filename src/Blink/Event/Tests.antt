-- ===== src/Blink/Event/Tests.antt =====
-- Runs of led/event_server/init.c.
use rtems_examples.Common.{refl, [], ◌∷◌}
use rtems_examples.Blink.{off, on, by_count, Alternates}
use rtems_examples.Blink.Event.{
  State, at_receive, no_event, send_step, server_step, sends, serves, Reach, here, next, start,
}
use rtems_examples.Blink.Event.Order.{event-Reach-Alternates}

-- The server has switched the LED twice, the second time behind its sender.
abbrev two_switches : State
two_switches = record {
  count = 2;
  server = at_receive;
  pending = no_event;
  leds = on ∷ off ∷ [];
  incorrect = 0;
}

two-run : Reach start two_switches
unfolding start send_step server_step by_count
two-run =
    let sent = send_step start in
    let taken = server_step sent.server sent in
    let sent_again = send_step taken in
    let handled = server_step sent_again.server sent_again in
    let taken_again = server_step handled.server handled in
    next
      (next
        (next (next (next (next here (sends start)) (serves sent)) (sends taken))
          (serves sent_again))
        (serves handled))
      (serves taken_again)

-- Two sends before the server runs make an incorrect event set.
abbrev overtaken : State
overtaken = record { count = 2; server = at_receive; pending = no_event; leds = []; incorrect = 1 }

overtaken-run : Reach start overtaken
unfolding start send_step server_step by_count
overtaken-run =
    let sent = send_step start in
    let sent_again = send_step sent in
    let taken = server_step sent_again.server sent_again in
    next (next (next (next here (sends start)) (sends sent)) (serves sent_again)) (serves taken)

event-Reach-Alternates_example : Alternates two_switches.leds
event-Reach-Alternates_example = event-Reach-Alternates two-run refl
