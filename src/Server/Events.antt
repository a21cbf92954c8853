-- ===== src/Server/Events.antt =====
-- The callbacks of `impl Handler for ConnectionHandler` as the events of one connection.
use esesaetsch.Base.{ℕ, String, Result}
use esesaetsch.Crates.{Bytes}
use esesaetsch.Error.{CertError}
use esesaetsch.Server.Types.{Auth, ServerState, Handler}
use esesaetsch.Server.Auth.{auth_none, auth_password, auth_publickey, run_cert_auth}
use esesaetsch.Server.Sessions.{
  channel_open_session, pty_request, shell_request, exec_request, data_received,
  window_change_request,
}

pub data AuthEvent (WireCert : Type 0) : Type 0 where
  none_method : (user : String) → AuthEvent WireCert
  password : (user secret : String) → AuthEvent WireCert
  publickey : (user : String) → Bytes → AuthEvent WireCert
  certificate : (user : String) → WireCert → AuthEvent WireCert

pub data ChannelEvent : Type 0 where
  open_session : (id : ℕ) → ChannelEvent
  pty : (id : ℕ) → String → (cols rows pix_width pix_height : ℕ) → ChannelEvent
  shell : (id : ℕ) → ChannelEvent
  exec : (id : ℕ) → Bytes → ChannelEvent
  channel_data : (id : ℕ) → Bytes → ChannelEvent
  window_change : (id cols rows : ℕ) → ChannelEvent

module _ {Env Child Cert WireCert : Type 0} (state : ServerState Env Cert Child)
    (to_bytes : WireCert → Result String Bytes) (parse : Bytes → Result CertError Cert) where
  abbrev pub on_auth : Handler Env Child → AuthEvent WireCert → Auth × Handler Env Child
  on_auth h (none_method user) = auth_none state h user
  on_auth h (password user secret) = auth_password state h user secret
  on_auth h (publickey user blob) = auth_publickey state h user blob
  on_auth h (certificate user cert) = run_cert_auth state to_bytes parse h user cert

module _ {Env Child Cert : Type 0} (state : ServerState Env Cert Child) where
  abbrev pub on_channel : Handler Env Child → ChannelEvent → Handler Env Child
  on_channel h (open_session id) = channel_open_session h id
  on_channel h (pty id term c r pw ph) = pty_request h id term c r pw ph
  on_channel h (shell id) = shell_request state h id
  on_channel h (exec id bytes) = exec_request state h id bytes
  on_channel h (channel_data id bytes) = data_received h id bytes
  on_channel h (window_change id c r) = window_change_request h id c r
