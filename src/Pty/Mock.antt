-- ===== src/Pty/Mock.antt =====
-- The scripted spawner and child of pty.rs, which the tests of both crates use.
use esesaetsch.Base.{
  ℕ, ℤ, pos, Bool, true, false, Option, none, some, get_or, List, [], ◌∷◌, ◌++◌, String, ◌≡◌, refl,
  if◌then◌else◌, is_some, Result, ok, err, arith,
}
use esesaetsch.Crates.{Bytes}
use esesaetsch.Error.{SpawnError, process_spawn}
use esesaetsch.Pty.{
  Command, SessionExitStatus, from_code, SpawnSpec, effective_command, PtySpawner, PtyChild,
  TakesOnce,
}

pub record MockPtyRecord : Type 0 where
  pub stdin : Bytes
  pub resizes : List (ℕ × ℕ)
  pub killed : Bool

abbrev pub empty_record : MockPtyRecord
empty_record = record { stdin = []; resizes = []; killed = false }

pub record MockChildConfig : Type 0 where
  pub stdout_bytes : Bytes
  pub stderr_bytes : Option Bytes
  pub exit_status : Option SessionExitStatus
  pub spawn_error : Option String

-- The spawner's `last_record` is shared with the child; the child's own copy is the one that goes on.
pub record MockPtySpawner : Type 0 where
  pub config : MockChildConfig
  pub last_record : Option MockPtyRecord
  pub last_spec_command : Option Command
  pub last_spec_user : Option String

abbrev pub set_config : MockPtySpawner → MockChildConfig → MockPtySpawner
set_config self cfg = record self { config = cfg }

pub record MockPtyChild : Type 0 where
  pub stdout_buf : Option Bytes
  pub stderr_buf : Option Bytes
  pub interactive : Bool
  pub activity : MockPtyRecord
  pub writer_taken : Bool
  pub wait_taken : Bool
  pub exit_status : ℤ
  pub exit_resolved : Bool

abbrev status_code : Option SessionExitStatus → ℤ
status_code none = pos 0
status_code (some es) = get_or es.code (pos 0)

unfoldable pub new_child : MockChildConfig → MockPtyRecord → Bool → MockPtyChild
new_child cfg activity interactive = record {
  stdout_buf = some cfg.stdout_bytes;
  stderr_buf = cfg.stderr_bytes;
  interactive = interactive;
  activity = activity;
  writer_taken = false;
  wait_taken = false;
  exit_status = status_code cfg.exit_status;
  exit_resolved = is_some cfg.exit_status;
}

unfoldable pub spawn : MockPtySpawner → SpawnSpec → Result SpawnError MockPtyChild × MockPtySpawner
unfolding effective_command new_child
spawn self spec =
    let noted : MockPtySpawner = record self {
      last_spec_command = some (effective_command spec);
      last_spec_user = some spec.user;
    } in
    elim self.config.spawn_error [
      | some msg ↦ (err (process_spawn msg), noted)
      | none ↦ (
        ok (new_child self.config empty_record spec.interactive),
        record noted { last_record = some empty_record },
      )
    ]

take_reader : MockPtyChild → Option Bytes × MockPtyChild
take_reader self = (self.stdout_buf, record self { stdout_buf = none })

-- The writer stands for the record that it appends to.
take_writer : MockPtyChild → Option (Unit {0}) × MockPtyChild
take_writer self =
    if self.writer_taken then (none, self) else (some tt, record self { writer_taken = true })

take_stderr : MockPtyChild → Option Bytes × MockPtyChild
take_stderr self =
    if self.interactive then (none, self) else (self.stderr_buf, record self { stderr_buf = none })

-- The future stands for the cells that it reads when it is awaited: `poll_wait`.
take_wait : MockPtyChild → Option (Unit {0}) × MockPtyChild
take_wait self =
    if self.wait_taken then (none, self) else (some tt, record self { wait_taken = true })

-- The wait future: pending until the child is resolved.
unfoldable pub poll_wait : MockPtyChild → Option SessionExitStatus
poll_wait self = if self.exit_resolved then some (from_code self.exit_status) else none

resize : MockPtyChild → ℕ → ℕ → Result String (Unit {0}) × MockPtyChild
resize self cols rows = (
  ok tt,
  record self {
    activity = record self.activity { resizes = self.activity.resizes ++ (cols, rows) ∷ [] };
  },
)

kill : MockPtyChild → Result String (Unit {0}) × MockPtyChild
kill self = (
  ok tt,
  record self {
    activity = record self.activity { killed = true };
    exit_status = pos 137;
    exit_resolved = true;
  },
)

-- `poll_write` of the stdin writer
unfoldable pub write_stdin : MockPtyChild → Bytes → MockPtyChild
write_stdin self buf = record self {
  activity = record self.activity { stdin = self.activity.stdin ++ buf };
}

unfoldable pub mock_child : PtyChild MockPtyChild Bytes (Unit {0}) (Unit {0})
unfolding take_reader take_writer take_stderr take_wait resize kill
mock_child = record {
  take_reader = take_reader;
  take_writer = take_writer;
  take_stderr = take_stderr;
  take_wait = take_wait;
  resize = resize;
  kill = kill;
}

abbrev pub mock_spawner : PtySpawner MockPtySpawner MockPtyChild
mock_spawner = record { spawn = spawn }

-- The scripted child hands out each of its streams, and its wait future, at most once.
pub mock_child-TakesOnce : TakesOnce mock_child
unfolding mock_child
mock_child-TakesOnce = record {
  reader = λ s. refl;
  writer = λ s. ground arith;
  stderr = λ s. ground arith;
  wait = λ s. ground arith;
}

-- A killed child resolves with status 137, whatever its script says.
pub poll_wait-kill :
    (s : MockPtyChild) → poll_wait (mock_child.kill s).1 ≡ some (from_code (pos 137))
unfolding mock_child poll_wait
poll_wait-kill s = refl
