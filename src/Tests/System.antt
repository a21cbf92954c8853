-- ===== src/Tests/System.antt =====
-- A client that logs in with a password, starts a shell on channel 4, and sends on two channels.
use esesaetsch.Base.{
  String, true, none, some, List, [], ◌∷◌, ◌++◌, ok, ◌≡◌, ◌≢◌, refl, All, length, nth,
}
use esesaetsch.Pty.{Command}
use esesaetsch.Pty.Mock.{MockPtyChild, mock_child}
use esesaetsch.Server.Types.{ServerState, Handler, Task, ControlMsg, stdin, resize, new_client}
use esesaetsch.Server.Sessions.{launch_session}
use esesaetsch.Server.Events.{
  ChannelEvent, password, open_session, channel_data, window_change, on_auth, on_channel,
}
use esesaetsch.Server.Reach.{Reach, begin, authenticate, on_wire}
use esesaetsch.Server.Routes.{launches}
use esesaetsch.Server.Delivery.{on_channels}
use esesaetsch.Session.Stdin.Bounded.{IsKept}
use esesaetsch.Session.Loop
use esesaetsch.Session.Loop.{control}
use esesaetsch.Session.Stdin.{
  SessionTask, TaskEvent, in_session, stdin_received, stdin_written, start_task, run_task, waiting,
}
use esesaetsch.System.{data_sent, held, stdin_of, written-data_sent}
use esesaetsch.Tests.Samples.{server}
use esesaetsch.Tests.Server.{to_bytes, parse}
use esesaetsch.Tests.StdinChannel.{child}

abbrev pub mocked : ServerState (Unit {0}) String MockPtyChild
mocked = record {
  config = server.config;
  pubkey_auth = server.pubkey_auth;
  password_auth = server.password_auth;
  cert_auth = none;
  spawner = λ env spec. (ok child, env);
}

abbrev fresh : Handler (Unit {0}) MockPtyChild
fresh = new_client tt

abbrev opened : Handler (Unit {0}) MockPtyChild
opened =
    on_channel mocked (on_auth mocked to_bytes parse fresh (password "alice" "sesame")).1
      (open_session 4)

abbrev history : Reach mocked to_bytes parse opened
history = on_wire (authenticate (begin tt) (password "alice" "sesame") refl) (open_session 4)

abbrev typed : List ChannelEvent
typed =
    channel_data 4 (1 ∷ 2 ∷ [])
    ∷ channel_data 5 (9 ∷ [])
    ∷ window_change 4 80 24
    ∷ channel_data 4 (3 ∷ [])
    ∷ []

abbrev task : Task MockPtyChild
task = record {
  child = child;
  channel = 4;
  interactive = true;
  control = stdin (1 ∷ 2 ∷ []) ∷ resize 80 24 ∷ stdin (3 ∷ []) ∷ [];
}

-- The task takes two of its messages, and the pump writes the first chunk.
abbrev taken : List TaskEvent
taken =
    in_session (control (some (stdin (1 ∷ 2 ∷ []))))
    ∷ stdin_received
    ∷ in_session (control (some (resize 80 24)))
    ∷ stdin_written true
    ∷ []

abbrev worked : SessionTask MockPtyChild
worked = record {
  session = record (Loop.start mock_child child true) {
    child = (mock_child.resize (Loop.start mock_child child true).child 80 24).1;
    stdin_sent = (1 ∷ 2 ∷ []) ∷ [];
  };
  pump = waiting;
  queue = [];
  blocked = none;
  written = (1 ∷ 2 ∷ []) ∷ [];
}

opened_user : opened.authenticated_user ≡ some "alice"
unfolding esesaetsch.Server.Auth.auth_password esesaetsch.Server.Sessions.channel_open_session
opened_user = refl

abbrev launched : Handler (Unit {0}) MockPtyChild
launched = launch_session mocked opened 4 Command.shell true

task_there : nth (length opened.tasks) (on_channels mocked launched typed).tasks ≡ some task
unfolding launch_session esesaetsch.Server.Sessions.data_received
    esesaetsch.Server.Types.find_channel esesaetsch.Server.Sessions.window_change_request
    esesaetsch.Server.Sessions.channel_open_session esesaetsch.Server.Auth.auth_password
    esesaetsch.Server.Types.put_channel esesaetsch.Server.Types.send_control
task_there = refl

worked_run :
    run_task mock_child (start_task mock_child task.child task.interactive) taken ≡ some worked
unfolding run_task esesaetsch.Session.Stdin.step_task start_task Loop.step mock_child
worked_run = refl

quiet : All (λ e. launches e ≢ some 4) typed
quiet = (λ q. cc, (λ q. cc, (λ q. cc, (λ q. cc, tt))))

-- One chunk is on its way.
written-data_sent_example :
    IsKept worked.pump
      (data_sent 4 typed)
      worked.written
      (held worked ++ stdin_of (stdin (3 ∷ []) ∷ []))
written-data_sent_example =
    written-data_sent mocked to_bytes parse mock_child history 4 Command.shell true "alice" child
      typed task taken (stdin (3 ∷ []) ∷ []) worked opened_user refl quiet task_there refl
      worked_run
