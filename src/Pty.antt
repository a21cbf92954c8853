-- ===== src/Pty.antt =====
-- crates/esesätsch-core/src/pty.rs: what a session asks the operating system for. The traits are
-- records of functions; the state that they change, and what they hand out, are parameters.
pub mod Mock
use esesaetsch.Base.{ℕ, ℤ, pos, Bool, Option, none, some, List, String, ◌≡◌, Result}
use esesaetsch.Error.{SpawnError}
use esesaetsch.Cert.{CertGrants}

pub record TerminalSize : Type 0 where
  pub cols : ℕ
  pub rows : ℕ
  pub pixel_w : ℕ
  pub pixel_h : ℕ

-- `TerminalSize::default()`
abbrev pub no_size : TerminalSize
no_size = record { cols = 0; rows = 0; pixel_w = 0; pixel_h = 0 }

pub data Command : Type 0 where
  shell : Command
  exec : String → Command

pub record SessionExitStatus : Type 0 where
  pub code : Option ℤ
  pub signal : Option ℤ

abbrev pub success : SessionExitStatus
success = record { code = some (pos 0); signal = none }

abbrev pub from_code : ℤ → SessionExitStatus
from_code code = record { code = some code; signal = none }

pub record SpawnSpec : Type 0 where
  pub user : String
  pub term : String
  pub size : TerminalSize
  pub env : List (String × String)
  pub command : Command
  pub interactive : Bool
  pub grants : CertGrants

abbrev forced : Option String → Command → Command
forced none command = command
forced (some fc) command = exec fc

unfoldable pub effective_command : SpawnSpec → Command
effective_command spec = forced spec.grants.force_command spec.command

-- The trait `PtySpawner`, over the state of the system and the type of its children.
pub record PtySpawner (Env Child : Type 0) : Type 0 where
  pub spawn : Env → SpawnSpec → Result SpawnError Child × Env

-- The trait `PtyChild`, over the child's state and the handles that are taken from it. An error is
-- held by its text.
pub record PtyChild (Child Reader Writer Wait : Type 0) : Type 0 where
  pub take_reader : Child → Option Reader × Child
  pub take_writer : Child → Option Writer × Child
  pub take_stderr : Child → Option Reader × Child
  pub take_wait : Child → Option Wait × Child
  pub resize : Child → ℕ → ℕ → Result String (Unit {0}) × Child
  pub kill : Child → Result String (Unit {0}) × Child

-- What the trait promises of its `take_*` methods: nothing is handed out twice.
pub record TakesOnce {Child Reader Writer Wait : Type 0} (c : PtyChild Child Reader Writer Wait)
    : Type 0 where
  pub reader : (s : Child) → (c.take_reader (c.take_reader s).1).0 ≡ none
  pub writer : (s : Child) → (c.take_writer (c.take_writer s).1).0 ≡ none
  pub stderr : (s : Child) → (c.take_stderr (c.take_stderr s).1).0 ≡ none
  pub wait : (s : Child) → (c.take_wait (c.take_wait s).1).0 ≡ none
