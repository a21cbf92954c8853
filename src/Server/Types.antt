-- ===== src/Server/Types.antt =====
-- server.rs: the state of the server and of one connection, the channel map and the messages.
use esesaetsch.Base.{
  ℕ, zero, suc, Bool, ◌||◌, Option, none, some, get_or, List, [], ◌∷◌, ◌++◌, String, if◌then◌else◌,
  Result, eqb, u16_of_u32,
}
use esesaetsch.Crates.{Bytes}
use esesaetsch.Error.{AuthError, SpawnError}
use esesaetsch.Config.{Config}
use esesaetsch.Cert.{CertGrants}
use esesaetsch.Pty.{TerminalSize, no_size, SpawnSpec}

-- `russh::MethodKind`, `russh::server::Auth`
pub data MethodKind : Type 0 where
  public_key password : MethodKind

pub data Auth : Type 0 where
  accept : Auth
  reject : (proceed_with_methods : Option (List MethodKind)) (partial_success : Bool) → Auth

unfoldable pub advertised_methods : Config → List MethodKind
advertised_methods config =
    (if config.pubkey_enabled || config.cert_enabled then public_key ∷ [] else [])
    ++ (if config.password_enabled then password ∷ [] else [])

-- `session::ControlMsg`
pub data ControlMsg : Type 0 where
  stdin : Bytes → ControlMsg
  resize : (cols rows : ℕ) → ControlMsg
  close : ControlMsg

-- The shared state of the server: its configuration, and the backends as functions.
pub record ServerState (Env Cert Child : Type 0) : Type 0 where
  pub config : Config
  pub pubkey_auth : Env → String → Bytes → Result AuthError (Unit {0}) × Env
  pub password_auth : Env → String → String → Result AuthError (Unit {0}) × Env
  pub cert_auth : Option (Env → String → Cert → Result AuthError CertGrants × Env)
  pub spawner : Env → SpawnSpec → Result SpawnError Child × Env

pub record PtyRequestInfo : Type 0 where
  pub term : String
  pub size : TerminalSize

-- The control sender of an entry is the number of the session that receives.
pub record ChannelEntry : Type 0 where
  pub pty_request : Option PtyRequestInfo
  pub control_tx : Option ℕ

-- One session task: what it was started with, and the messages that it was sent.
pub record Task (Child : Type 0) : Type 0 where
  pub child : Child
  pub channel : ℕ
  pub interactive : Bool
  pub control : List ControlMsg

-- What the handler asks of the russh session directly.
pub data Reply : Type 0 where
  exit_status : (channel code : ℕ) → Reply
  close_channel : (channel : ℕ) → Reply

pub record Handler (Env Child : Type 0) : Type 0 where
  pub authenticated_user : Option String
  pub cert_grants : Option CertGrants
  pub channels : List (ℕ × ChannelEntry)
  pub env : Env
  pub tasks : List (Task Child)
  pub replies : List Reply

-- `new_client`
abbrev pub new_client : {Env Child : Type 0} → Env → Handler Env Child
new_client env = record {
  authenticated_user = none;
  cert_grants = none;
  channels = [];
  env = env;
  tasks = [];
  replies = [];
}

-- The channel map: `HashMap<ChannelId, ChannelEntry>`.
unfoldable pub find_channel : ℕ → List (ℕ × ChannelEntry) → Option ChannelEntry
find_channel id [] = none
find_channel id ((j, entry) ∷ rest) = if eqb j id then some entry else find_channel id rest

unfoldable pub put_channel : ℕ → ChannelEntry → List (ℕ × ChannelEntry) → List (ℕ × ChannelEntry)
put_channel id entry [] = (id, entry) ∷ []
put_channel id entry ((j, old) ∷ rest) =
    if eqb j id then (id, entry) ∷ rest else (j, old) ∷ put_channel id entry rest

abbrev pub new_entry : ChannelEntry
new_entry = record { pty_request = none; control_tx = none }

-- `channel_entry_mut`: the entry, a new one if there is none
abbrev pub entry_of : ℕ → List (ℕ × ChannelEntry) → ChannelEntry
entry_of id channels = get_or (find_channel id channels) new_entry

abbrev pub pty_of : Option ChannelEntry → Option PtyRequestInfo
pty_of none = none
pty_of (some entry) = entry.pty_request

abbrev pub tx_of : Option ChannelEntry → Option ℕ
tx_of none = none
tx_of (some entry) = entry.control_tx

abbrev pub term_and_size : Option PtyRequestInfo → String × TerminalSize
term_and_size none = ("dumb", no_size)
term_and_size (some p) = (p.term, p.size)

-- `u16::try_from(n).unwrap_or(default)`
abbrev pub clamp_u16 : ℕ → ℕ → ℕ
clamp_u16 n default = get_or (u16_of_u32 n) default

module _ {Child : Type 0} where
  -- A message at the end of a session's control channel.
  unfoldable pub send_control : ℕ → ControlMsg → List (Task Child) → List (Task Child)
  send_control i msg [] = []
  send_control zero msg (t ∷ tasks) = record t { control = t.control ++ msg ∷ [] } ∷ tasks
  send_control (suc i) msg (t ∷ tasks) = t ∷ send_control i msg tasks

  -- `if let Some(tx) = tx { tx.send(msg) }`
  abbrev pub send_to : Option ℕ → ControlMsg → List (Task Child) → List (Task Child)
  send_to none msg tasks = tasks
  send_to (some tx) msg tasks = send_control tx msg tasks
