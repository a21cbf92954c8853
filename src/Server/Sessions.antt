-- ===== src/Server/Sessions.antt =====
-- server.rs: the channel callbacks, and the launch of a session.
use esesaetsch.Base.{
  ℕ, Bool, none, some, get_or, [], ◌∷◌, ◌++◌, String, Result, ok, err, length, is_some,
}
use esesaetsch.Crates.{Bytes}
use esesaetsch.Std.Utf8.{from_utf8_lossy}
use esesaetsch.Error.{SpawnError}
use esesaetsch.Cert.{no_grants}
use esesaetsch.Pty.{Command, shell, exec, SpawnSpec}
use esesaetsch.Server.Types.{
  ServerState, PtyRequestInfo, ChannelEntry, stdin, resize, exit_status, close_channel, Handler,
  find_channel, put_channel, entry_of, pty_of, tx_of, term_and_size, clamp_u16, send_to,
}

module _ {Env Child : Type 0} where
  unfoldable pub channel_open_session : Handler Env Child → ℕ → Handler Env Child
  channel_open_session self id = record self {
    channels = put_channel id (entry_of id self.channels) self.channels;
  }

  unfoldable pub pty_request :
      Handler Env Child
      → ℕ
      → String
      → (col_width row_height pix_width pix_height : ℕ) → Handler Env Child
  pty_request self id term col_width row_height pix_width pix_height =
      let info : PtyRequestInfo = record {
        term = term;
        size = record {
          cols = clamp_u16 col_width 80;
          rows = clamp_u16 row_height 24;
          pixel_w = clamp_u16 pix_width 0;
          pixel_h = clamp_u16 pix_height 0;
        };
      } in
      let entry : ChannelEntry = record (entry_of id self.channels) { pty_request = some info } in
      record self { channels = put_channel id entry self.channels }

  abbrev refuse : Handler Env Child → ℕ → Handler Env Child
  refuse self id = record self {
    replies = self.replies ++ exit_status id 1 ∷ close_channel id ∷ [];
  }

  abbrev pub spec_for : Handler Env Child → String → ℕ → Command → Bool → SpawnSpec
  spec_for self user id command interactive =
      let (term, size) = term_and_size (pty_of (find_channel id self.channels)) in
      record {
        user = user;
        term = term;
        size = size;
        env = [];
        command = command;
        interactive = interactive;
        grants = get_or self.cert_grants no_grants;
      }

  -- The new session's task, and its control sender in the entry of the channel.
  abbrev launched : Handler Env Child → ℕ → Bool → Child → Handler Env Child
  launched self id interactive child = record self {
    tasks =
        self.tasks
        ++ record { child = child; channel = id; interactive = interactive; control = [] } ∷ [];
    channels =
        put_channel id
          (record (entry_of id self.channels) { control_tx = some (length self.tasks) })
          self.channels;
  }

  abbrev after_spawn :
      Handler Env Child → ℕ → Bool → Result SpawnError Child × Env → Handler Env Child
  after_spawn self id interactive (ok child, env) =
      launched (record self { env = env }) id interactive child
  after_spawn self id interactive (err e, env) = refuse (record self { env = env }) id

  abbrev pub is_interactive : Handler Env Child → ℕ → Bool
  is_interactive self id = is_some (pty_of (find_channel id self.channels))

  -- `data`, a reserved word here
  unfoldable pub data_received : Handler Env Child → ℕ → Bytes → Handler Env Child
  data_received self id bytes = record self {
    tasks = send_to (tx_of (find_channel id self.channels)) (stdin bytes) self.tasks;
  }

  unfoldable pub window_change_request :
      Handler Env Child → ℕ → (col_width row_height : ℕ) → Handler Env Child
  window_change_request self id col_width row_height = record self {
    tasks =
        send_to (tx_of (find_channel id self.channels))
          (resize (clamp_u16 col_width 80) (clamp_u16 row_height 24)) self.tasks;
  }

module _ {Env Child Cert : Type 0} (state : ServerState Env Cert Child) where
  unfoldable pub launch_session : Handler Env Child → ℕ → Command → Bool → Handler Env Child
  launch_session self id command interactive = elim self.authenticated_user [
    | none ↦ refuse self id
    | some user ↦
        after_spawn self id interactive
          (state.spawner self.env (spec_for self user id command interactive))
  ]

  unfoldable pub shell_request : Handler Env Child → ℕ → Handler Env Child
  unfolding launch_session
  shell_request self id = launch_session self id shell (is_interactive self id)

  unfoldable pub exec_request : Handler Env Child → ℕ → Bytes → Handler Env Child
  unfolding launch_session
  exec_request self id bytes =
      launch_session self id (exec (from_utf8_lossy bytes)) (is_interactive self id)
