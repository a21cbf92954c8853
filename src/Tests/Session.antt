-- ===== src/Tests/Session.antt =====
-- session.rs: sample sessions of the scripted child.
use esesaetsch.Base.{
  ℕ, pos, Bool, true, false, none, some, List, [], ◌∷◌, String, Result, ok, ◌≡◌, ◌≢◌, refl, All,
  Some, ◌⊎◌, ◌||◌, ltb, arith,
}
use esesaetsch.Crates.{Bytes}
use esesaetsch.Pty.{from_code}
use esesaetsch.Pty.Mock.{MockPtyChild, empty_record, mock_child}
use esesaetsch.Server.Types.{stdin}
use esesaetsch.Session.Pump.{pump_to_handle}
use esesaetsch.Session.Loop.{
  ClientMsg, output, extended_output, exit_status, eof, close_channel, Phase, finished, exited,
  Session, Event, stdout_chunk, stderr_chunk, stdout_end, stderr_end, child_exit, control,
  drain_timeout, start, run,
}
use esesaetsch.Session.Orderly.{IsTranscript}
use esesaetsch.Session.Trace.{IsReported, run-IsTranscript, run-exit_status}
use esesaetsch.Session.Statuses.{statuses}

abbrev child : MockPtyChild
child = record {
  stdout_buf = some (111 ∷ []);
  stderr_buf = some (101 ∷ []);
  interactive = false;
  activity = empty_record;
  writer_taken = false;
  wait_taken = false;
  exit_status = pos 3;
  exit_resolved = true;
}

-- The child exits before its output was read.
abbrev events : List Event
events =
    control (some (stdin (105 ∷ [])))
    ∷ child_exit (ok (from_code (pos 3)))
    ∷ stderr_chunk (101 ∷ [])
    ∷ stdout_chunk (111 ∷ [])
    ∷ stdout_end
    ∷ stderr_end
    ∷ []

abbrev begun : Session MockPtyChild
begun = start mock_child child false

abbrev over : Session MockPtyChild
over = record {
  child = record child {
    stdout_buf = none;
    stderr_buf = none;
    writer_taken = true;
    wait_taken = true;
  };
  has_wait = true;
  has_writer = true;
  stdout = finished;
  stderr = finished;
  phase = exited 3;
  client =
      extended_output 1 (101 ∷ []) ∷ output (111 ∷ []) ∷ exit_status 3 ∷ eof ∷ close_channel ∷ [];
  stdin_sent = (105 ∷ []) ∷ [];
}

events-run : run mock_child begun events ≡ some over
unfolding run esesaetsch.Session.Loop.step start mock_child esesaetsch.Session.Loop.exit_code
events-run = refl

no_timeout : All (λ e. e ≢ drain_timeout) events
no_timeout = (
  λ e. ground (arith, e),
  (
    λ e. ground (arith, e),
    (
      λ e. ground (arith, e),
      (λ e. ground (arith, e), (λ e. ground (arith, e), (λ e. ground (arith, e), tt))),
    ),
  ),
)

run-IsTranscript_example : IsTranscript over.phase over.client
run-IsTranscript_example = run-IsTranscript mock_child child false events over no_timeout events-run

run-exit_status_example :
    (statuses over.client ≡ [])
    ⊎ ((status : ℕ) × (statuses over.client ≡ status ∷ []) × Some (IsReported status) events)
run-exit_status_example = run-exit_status mock_child child false events over events-run

-- After the two waits for the output timed out, the pumps go on behind the close of the channel.
late_output :
    (s : Session MockPtyChild) × (run mock_child begun (
        child_exit (ok (from_code (pos 3)))
        ∷ drain_timeout
        ∷ drain_timeout
        ∷ stdout_chunk (111 ∷ [])
        ∷ [])
      ≡ some s)
    × (s.client ≡ exit_status 3 ∷ eof ∷ close_channel ∷ output (111 ∷ []) ∷ [])
unfolding run esesaetsch.Session.Loop.step start mock_child esesaetsch.Session.Loop.exit_code
late_output = (_, refl, refl)

abbrev third_fails : ℕ → Bool
third_fails n = ltb n 2 || ltb 2 n

abbrev reads : List (Result String Bytes)
reads = ok (1 ∷ 2 ∷ []) ∷ ok (3 ∷ []) ∷ ok (4 ∷ []) ∷ ok (5 ∷ []) ∷ ok [] ∷ ok (6 ∷ []) ∷ []

pump_tests : pump_to_handle third_fails 0 reads ≡ (1 ∷ 2 ∷ []) ∷ (3 ∷ []) ∷ (4 ∷ []) ∷ []
unfolding pump_to_handle
pump_tests = refl
