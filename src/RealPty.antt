-- ===== src/RealPty.antt =====
-- crates/esesätsch/src/real_pty.rs: the spawner and the child. What portable-pty, tokio and nix do is
-- an argument.
pub mod Reader
pub mod Delivery
pub mod Progress
pub mod Complete
pub mod Stream
pub mod Writer
pub mod Child
pub mod Wakeup
use esesaetsch.Base.{
  ℕ, ℤ, pos, Bool, true, false, Option, none, some, get_or, List, [], ◌∷◌, String, Result, ok, err,
  format, is_blank, i32_of_u32, if◌then◌else◌,
}
use esesaetsch.Target.{TargetOs, is_unix}
use esesaetsch.Std.Map.{Map, insert}
use esesaetsch.Error.{SpawnError, pty_allocation, process_spawn}
use esesaetsch.Pty.{
  TerminalSize, Command, shell, exec, SessionExitStatus, SpawnSpec, effective_command, PtySpawner,
  PtyChild,
}

-- `portable_pty::PtySize`
pub record PtySize : Type 0 where
  pub rows : ℕ
  pub cols : ℕ
  pub pixel_width : ℕ
  pub pixel_height : ℕ

unfoldable pub portable_size : TerminalSize → PtySize
portable_size s = record {
  rows = s.rows;
  cols = s.cols;
  pixel_width = s.pixel_w;
  pixel_height = s.pixel_h;
}

-- `portable_pty::CommandBuilder`: the arguments and the environment
pub record CommandBuilder : Type 0 where
  pub argv : List String
  pub envs : Map String

-- the login shell, whoever the user is
abbrev pub default_shell_argv : TargetOs → String → List String
default_shell_argv os user = if is_unix os then "/bin/sh" ∷ "-i" ∷ [] else "cmd.exe" ∷ []

unfoldable pub shell_argv : TargetOs → String → List String
unfolding is_blank
shell_argv os s =
    if is_blank s
    then "/bin/sh" ∷ []
    else if is_unix os
    then "/bin/sh" ∷ "-c" ∷ s ∷ []
    else "cmd.exe" ∷ "/C" ∷ s ∷ []

abbrev pub argv_of : TargetOs → String → Command → List String
argv_of os user shell = default_shell_argv os user
argv_of os user (exec s) = shell_argv os s

abbrev pub set_all : List (String × String) → Map String → Map String
set_all [] envs = envs
set_all ((k, v) ∷ rest) envs = set_all rest (insert k v envs)

-- The command of a request, in the environment that a new builder starts from.
unfoldable pub command_for : TargetOs → Map String → SpawnSpec → CommandBuilder
unfolding effective_command shell_argv insert
command_for os base spec = record {
  argv = argv_of os spec.user (effective_command spec);
  envs = set_all spec.env (insert "TERM" spec.term base);
}

-- `process::ExitStatus` has a `u32`; it is cut at `i32::MAX`.
unfoldable pub convert_exit_status : ℕ → SessionExitStatus
convert_exit_status exit_code = record {
  code = some (get_or (i32_of_u32 exit_code) (pos 0x7fffffff));
  signal = none;
}

-- What the blocking task that waits for the process gives.
unfoldable pub wait_status : Result String ℕ → Result String SessionExitStatus
unfolding convert_exit_status
wait_status (ok exit_code) = ok (convert_exit_status exit_code)
wait_status (err e) = err (format ("waitpid: " ∷ e ∷ []))

-- What the session is told of it; the task may have been lost.
unfoldable pub join_wait :
    Result String (Result String SessionExitStatus) → Result String SessionExitStatus
join_wait (ok inner) = inner
join_wait (err join_err) = err (format ("wait task: " ∷ join_err ∷ []))

abbrev pub wait_outcome : Result String (Result String ℕ) → Result String SessionExitStatus
wait_outcome (ok waited) = join_wait (ok (wait_status waited))
wait_outcome (err join_err) = join_wait (err join_err)

-- What the spawner asks of portable-pty, over the state of the system. An error is its text.
pub record PtySystem (Env Master Proc Reader Writer : Type 0) : Type 0 where
  pub base_env : Map String
  pub openpty : PtySize → Env → Result String Master × Env
  pub spawn_command : Master → CommandBuilder → Env → Result String Proc × Env
  pub process_id : Proc → Option ℕ
  pub try_clone_reader : Master → Env → Result String Reader × Env
  pub take_writer : Master → Env → Result String Writer × Env
  pub resize : Master → PtySize → Result String (Unit {0}) × Master
  -- `nix::sys::signal::kill(pid, SIGHUP)`
  pub kill_hangup : ℤ → Result String (Unit {0})

-- The wait handle is the process that the blocking task waits for.
pub record RealPtyChild (Master Proc Reader Writer : Type 0) : Type 0 where
  pub master : Master
  pub reader : Option Reader
  pub writer : Option Writer
  pub wait_handle : Option Proc
  pub pid : Option ℕ

-- `?` on a step that changes the state of the system.
abbrev step_or :
    {Env A B : Type 0}
    → (String → SpawnError)
    → Result String A × Env
    → (A → Env → Result SpawnError B × Env)
    → Result SpawnError B × Env
step_or f (ok a, env) k = k a env
step_or f (err e, env) k = (err (f e), env)

module _ {Env Master Proc Reader Writer : Type 0} (os : TargetOs)
    (sys : PtySystem Env Master Proc Reader Writer) where
  unfoldable pub spawn :
      Env → SpawnSpec → Result SpawnError (RealPtyChild Master Proc Reader Writer) × Env
  unfolding portable_size command_for
  spawn env spec = step_or pty_allocation (sys.openpty (portable_size spec.size) env) λ master env.
      step_or process_spawn (sys.spawn_command master (command_for os sys.base_env spec) env)
        λ child env.
          step_or (λ e. pty_allocation (format ("cloning reader: " ∷ e ∷ [])))
            (sys.try_clone_reader master env)
            λ reader env.
              step_or (λ e. pty_allocation (format ("taking writer: " ∷ e ∷ [])))
                (sys.take_writer master env)
                λ writer env. (
                  ok (record {
                    master = master;
                    reader = some reader;
                    writer = some writer;
                    wait_handle = some child;
                    pid = sys.process_id child;
                  }),
                  env,
                )

  abbrev pub real_spawner : PtySpawner Env (RealPtyChild Master Proc Reader Writer)
  real_spawner = record { spawn = spawn }

  unfoldable pub kill_pid : ℕ → Result String (Unit {0})
  kill_pid pid =
      if is_unix os
      then elim (i32_of_u32 pid) [
        | none ↦ err "pid out of range"
        | some p ↦ elim (sys.kill_hangup p) [
          | ok u ↦ ok u
          | err e ↦ err (format ("kill: " ∷ e ∷ []))
        ]
      ]
      else ok tt

  resize_to :
      RealPtyChild Master Proc Reader Writer
      → ℕ
      → ℕ
      → Result String (Unit {0}) × RealPtyChild Master Proc Reader Writer
  resize_to self cols rows =
      let (r, master) =
        sys.resize self.master
          (record { rows = rows; cols = cols; pixel_width = 0; pixel_height = 0 }) in
      (
        elim r [ ok u ↦ ok u | err e ↦ err (format ("pty resize: " ∷ e ∷ [])) ],
        record self { master = master },
      )

  abbrev pub kill_child : Option ℕ → Result String (Unit {0})
  kill_child none = ok tt
  kill_child (some pid) = kill_pid pid

  -- The terminal has no stderr of its own.
  unfoldable pub real_child : PtyChild (RealPtyChild Master Proc Reader Writer) Reader Writer Proc
  unfolding resize_to kill_pid
  real_child = record {
    take_reader = λ self. (self.reader, record self { reader = none });
    take_writer = λ self. (self.writer, record self { writer = none });
    take_stderr = λ self. (none, self);
    take_wait = λ self. (self.wait_handle, record self { wait_handle = none });
    resize = resize_to;
    kill = λ self. (kill_child self.pid, self);
  }
