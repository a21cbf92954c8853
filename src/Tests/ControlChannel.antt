-- ===== src/Tests/ControlChannel.antt =====
-- server.rs: the control channel of a session that takes no message is full.
use esesaetsch.Base.{
  ℕ, zero, suc, false, Option, none, some, List, [], ◌∷◌, String, ◌≡◌, refl, replicate, arith,
}
use esesaetsch.Server.Types.{Handler, ChannelEntry, Task, stdin, resize}
use esesaetsch.Server.Events.{ChannelEvent, channel_data, window_change}
use esesaetsch.Server.Delivery.{on_channels}
use esesaetsch.Server.Control.{
  Link, LinkEvent, callback, received, new_receiver, messages_to, step_link, run_link,
}
use esesaetsch.Server.Control.Bounds.{IsBounded}
use esesaetsch.Server.Control.Refine.{callbacks, settled, run_link-refines}
use esesaetsch.Tests.Samples.{server}

abbrev entry : ℕ → ChannelEntry
entry i = record { pty_request = none; control_tx = some i }

-- Two sessions; the first was sent as many messages as its channel holds.
abbrev handler : Handler (Unit {0}) String
handler = record {
  authenticated_user = some "alice";
  cert_grants = none;
  channels = (4, entry 0) ∷ (5, entry 1) ∷ [];
  env = tt;
  tasks =
      record {
        child = "alice";
        channel = 4;
        interactive = false;
        control = replicate 32 (stdin (10 ∷ []));
      }
      ∷ record { child = "alice"; channel = 5; interactive = false; control = [] }
      ∷ [];
  replies = [];
}

abbrev begun : Link (Unit {0}) String
begun = record { handler = handler; receivers = λ i. new_receiver; waiting = none }

begun-IsBounded : IsBounded server begun
begun-IsBounded zero = ground arith
begun-IsBounded (suc zero) = ground arith
begun-IsBounded (suc (suc i)) = ground arith

abbrev line : ChannelEvent
line = channel_data 4 (65 ∷ [])

abbrev after : Option (Link (Unit {0}) String) → Link (Unit {0}) String
after none = begun
after (some l) = l

abbrev filled : Link (Unit {0}) String
filled = record begun { waiting = some line }

filled_tests :
    (run_link server begun (callback line ∷ []) ≡ some filled)
    × (step_link server filled (callback (window_change 5 80 24)) ≡ none)
unfolding run_link step_link esesaetsch.Server.Types.find_channel
filled_tests = (refl, refl)

-- The first session takes a message, and the second one's window changes.
abbrev events : List LinkEvent
events = callback line ∷ received 0 ∷ callback (window_change 5 80 24) ∷ received 1 ∷ []

abbrev ended : Link (Unit {0}) String
ended = after (run_link server begun events)

events_run : run_link server begun events ≡ some ended
unfolding run_link step_link esesaetsch.Server.Types.find_channel
    esesaetsch.Server.Sessions.data_received esesaetsch.Server.Types.send_control
    esesaetsch.Server.Sessions.window_change_request
events_run = refl

ended_tests : (messages_to 0 ended.handler.tasks ≡ 33) × (messages_to 1 ended.handler.tasks ≡ 1)
unfolding run_link step_link esesaetsch.Server.Types.find_channel
    esesaetsch.Server.Sessions.data_received esesaetsch.Server.Types.send_control
    esesaetsch.Server.Sessions.window_change_request
ended_tests = (refl, refl)

run_link-refines_example :
    (settled server ended ≡ on_channels server handler (callbacks events)) × IsBounded server ended
run_link-refines_example =
    run_link-refines server events begun ended refl begun-IsBounded events_run
