-- ===== src/Tests/RealPty.antt =====
-- real_pty.rs: sample streams and commands.
use esesaetsch.Base.{
  ℕ, Bool, true, false, none, some, List, [], ◌∷◌, ◌++◌, String, Result, ok, err, ◌≡◌, refl, min,
  Option, arith, All, ◌⊎◌, ◌≤◌, length,
}
use esesaetsch.Crates.{Bytes}
use esesaetsch.Std.Map.{get}
use esesaetsch.Pty.{Command, SpawnSpec, no_size}
use esesaetsch.Session.Pump.{pump_to_handle, stream, concat}
use esesaetsch.Session.Loop.{exit_code}
use esesaetsch.Target.{linux, windows}
use esesaetsch.RealPty.{wait_outcome, command_for, shell_argv}
use esesaetsch.RealPty.Child.{exit_code-wait_outcome}
use esesaetsch.RealPty.Reader
use esesaetsch.RealPty.Reader.{poll, turn_of_task, async_reader_from_sync}
use esesaetsch.RealPty.Delivery.{IsChunk, HasRoom}
use esesaetsch.RealPty.Complete.{rounds}
use esesaetsch.RealPty.Stream.{concat-pump_to_handle-run}
use esesaetsch.RealPty.Writer.{
  Bridge, Event, write, receive, run, all_reported, IsInOrder, run-IsInOrder,
}

abbrev reads : List (Result String Bytes)
reads = ok (1 ∷ 2 ∷ 3 ∷ []) ∷ ok (4 ∷ []) ∷ ok [] ∷ ok (5 ∷ []) ∷ []

abbrev always : ℕ → Bool
always n = true

-- The first poll waits; the second takes part of the first item.
abbrev events : List Reader.Event
events =
    poll 2
    ∷ turn_of_task
    ∷ turn_of_task
    ∷ poll 2
    ∷ turn_of_task
    ∷ turn_of_task
    ∷ turn_of_task
    ∷ poll 2
    ∷ poll 2
    ∷ poll 2
    ∷ []

events-HasRoom : All HasRoom events
events-HasRoom = (
  omega arith,
  (tt, (tt, (omega arith, (tt, (tt, (tt, (omega arith, (omega arith, (omega arith, tt))))))))),
)

read_tests :
    (Reader.run events (async_reader_from_sync reads)).0
    ≡ ok (1 ∷ 2 ∷ []) ∷ ok (3 ∷ []) ∷ ok (4 ∷ []) ∷ ok [] ∷ []
unfolding Reader.run async_reader_from_sync
read_tests = refl

concat-pump_to_handle-run_example :
    let (answers, source) = Reader.run events (async_reader_from_sync reads) in
    let sent = concat (pump_to_handle always 0 answers) in
    let whole = (Reader.run (rounds 20 2) (async_reader_from_sync reads)).0 in
    ((rest : Bytes) × (sent ++ rest ≡ stream reads))
    × (All IsChunk answers ⊎ (sent ≡ stream reads))
    × (length source.reader.rx ≤ 8)
    × (All IsChunk reads ⊎ (concat (pump_to_handle always 0 whole) ≡ stream reads))
concat-pump_to_handle-run_example =
    concat-pump_to_handle-run always reads events 19 2 (λ i. refl) events-HasRoom (omega arith)
      (omega arith)

abbrev idle : Bridge
idle = record { queue = []; closed = false; written = [] }

idle-IsInOrder : IsInOrder [] idle
idle-IsInOrder = record { bounded = omega arith; conserved = refl }

abbrev writes : List Event
writes =
    write (1 ∷ [])
    ∷ write (2 ∷ [])
    ∷ receive true
    ∷ write (3 ∷ [])
    ∷ receive false
    ∷ write (4 ∷ [])
    ∷ []

write_tests :
    ((run idle writes).1 ≡ record { queue = []; closed = true; written = 1 ∷ [] })
    × (all_reported (run idle writes).0 ≡ 1 ∷ 2 ∷ 3 ∷ [])
unfolding run
write_tests = (refl, refl)

run-IsInOrder_example : IsInOrder (all_reported (run idle writes).0) (run idle writes).1
run-IsInOrder_example = run-IsInOrder writes idle [] idle-IsInOrder

exit_code-wait_outcome_example :
    exit_code (wait_outcome (ok (ok 0xffffffff))) ≡ min 0xffffffff 0x7fffffff
exit_code-wait_outcome_example = exit_code-wait_outcome (ok (ok 0xffffffff))

abbrev request : SpawnSpec
request = record {
  user = "alice";
  term = "xterm";
  size = no_size;
  env = ("LANG", "C") ∷ [];
  command = Command.exec "rm -r x";
  interactive = true;
  grants = record { force_command = some "backup" };
}

command_tests : command_for linux [] request ≡ record {
  argv = "/bin/sh" ∷ "-c" ∷ "backup" ∷ [];
  envs = ("LANG", "C") ∷ ("TERM", "xterm") ∷ [];
}
unfolding command_for esesaetsch.Std.Map.str_lt
command_tests = refl

-- A blank command is run by a shell that Windows does not have.
shell_tests :
    (shell_argv windows " " ≡ "/bin/sh" ∷ [])
    × (shell_argv windows "dir" ≡ "cmd.exe" ∷ "/C" ∷ "dir" ∷ [])
unfolding shell_argv esesaetsch.Base.is_blank
shell_tests = (refl, refl)
