-- ===== src/Tests/Stalled.antt =====
-- server.rs, session.rs: a connection with two sessions, one of which has a child that does not read.
use esesaetsch.Base.{ℕ, true, false, none, some, List, [], ◌∷◌, ◌≡◌, refl, replicate}
use esesaetsch.Pty.Mock.{MockPtyChild, mock_child}
use esesaetsch.Server.Types.{Handler, ChannelEntry, stdin}
use esesaetsch.Server.Events.{ChannelEvent, channel_data}
use esesaetsch.Server.Control.{
  Link, LinkEvent, callback, received, dropped, new_receiver, set_receiver,
}
use esesaetsch.Server.Control.Held.{IsHeld}
use esesaetsch.Session.Loop
use esesaetsch.Session.Loop.{stdout_chunk, stdout_end}
use esesaetsch.Session.Stdin.{SessionTask, in_session}
use esesaetsch.System.Stalled.{
  JointEvent, in_connection, in_task, step_joint, run_joint, IsStuck, run_joint-IsStuck,
}
use esesaetsch.Tests.StdinChannel.{child, filled, later, filled-IsStalled}
use esesaetsch.Tests.System.{mocked}

abbrev entry : ℕ → ChannelEntry
entry i = record { pty_request = none; control_tx = some i }

-- The first session has received 34 messages, and 32 more wait.
abbrev handler : Handler (Unit {0}) MockPtyChild
handler = record {
  authenticated_user = some "alice";
  cert_grants = none;
  channels = (4, entry 0) ∷ (5, entry 1) ∷ [];
  env = tt;
  tasks =
      record {
        child = child;
        channel = 4;
        interactive = true;
        control = replicate 66 (stdin (105 ∷ []));
      }
      ∷ record { child = child; channel = 5; interactive = false; control = [] }
      ∷ [];
  replies = [];
}

abbrev line : ChannelEvent
line = channel_data 4 (105 ∷ [])

abbrev full : Link (Unit {0}) MockPtyChild
full = record {
  handler = handler;
  receivers = set_receiver 0 (record new_receiver { taken = 34 }) (λ i. new_receiver);
  waiting = some line;
}

full-IsHeld : IsHeld mocked 0 line full
unfolding esesaetsch.Server.Types.find_channel
full-IsHeld = record { waiting = refl; target_is = refl; full = refl }

-- The first child prints, and the other session ends.
abbrev events : List JointEvent
events =
    in_task (in_session (stdout_chunk (111 ∷ [])))
    ∷ in_connection (dropped 1)
    ∷ in_task (in_session stdout_end)
    ∷ []

abbrev after : Link (Unit {0}) MockPtyChild
after = record full {
  receivers = set_receiver 1 (record new_receiver { is_open = false }) full.receivers;
}

events_run : run_joint mocked mock_child 0 (full, filled) events ≡ some (after, later)
unfolding run_joint step_joint esesaetsch.Session.Stdin.step_task Loop.step
    esesaetsch.Session.Stdin.start_task mock_child esesaetsch.Server.Control.step_link
    esesaetsch.Server.Types.find_channel
events_run = refl

run_joint-IsStuck_example :
    IsStuck mocked mock_child 0 line (105 ∷ []) (105 ∷ []) (after, later)
    × (after.handler ≡ full.handler)
    × ((e' : ChannelEvent)
        → step_joint mocked mock_child 0 (after, later) (in_connection (callback e')) ≡ none)
run_joint-IsStuck_example =
    run_joint-IsStuck mocked mock_child 0 line (105 ∷ []) (105 ∷ []) events (full, filled)
      (after, later) (tt, (tt, (tt, tt))) (full-IsHeld, filled-IsStalled) events_run
