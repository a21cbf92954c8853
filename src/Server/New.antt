-- ===== src/Server/New.antt =====
-- server.rs: EsesätschServer::new, and what the server offers first and after a rejection.
use esesaetsch.Base.{ℕ, some, String, List, [], ◌∷◌, Result, ◌≡◌, ◌≢◌, false, inl, inr}
use esesaetsch.Crates.{Bytes}
use esesaetsch.Error.{CertError}
use esesaetsch.Crypto.{Russh, Preferred, preferences}
use esesaetsch.Server.Types.{MethodKind, accept, reject, advertised_methods, ServerState, Handler}
use esesaetsch.Server.Events.{AuthEvent, on_auth}
use esesaetsch.Server.Reject.{on_auth-Concluded}

-- What the code sets of `russh::server::Config`; the rest are russh's defaults.
pub record RusshConfig (Name PrivateKey : Type 0) : Type 0 where
  pub server_id : String
  pub methods : List MethodKind
  pub keys : List PrivateKey
  pub preferred : Preferred Name
  pub max_auth_attempts : ℕ

-- The parts of the state are given as one; the conversion of `max_auth_attempts` to `usize` keeps it.
unfoldable pub new :
    {Env Cert Child Name PrivateKey : Type 0}
    → Russh Name
    → ServerState Env Cert Child
    → PrivateKey
    → ServerState Env Cert Child × RusshConfig Name PrivateKey
unfolding advertised_methods preferences
new names state host_key = (
  state,
  record {
    server_id = "SSH-2.0-esesaetsch_0";
    methods = advertised_methods state.config;
    keys = host_key ∷ [];
    preferred = preferences names;
    max_auth_attempts = state.config.max_auth_attempts;
  },
)

-- A client that is rejected is told the methods which russh was given to offer at first.
pub new-rejects :
    {Env Child Cert WireCert Name PrivateKey : Type 0} (names : Russh Name)
    (state : ServerState Env Cert Child) (host_key : PrivateKey)
    (to_bytes : WireCert → Result String Bytes) (parse : Bytes → Result CertError Cert)
    (h : Handler Env Child) (e : AuthEvent WireCert)
    → (on_auth (new names state host_key).0 to_bytes parse h e).0 ≢ accept
    → (on_auth (new names state host_key).0 to_bytes parse h e).0
      ≡ reject (some (new names state host_key).1.methods) false
unfolding new
new-rejects names state host_key to_bytes parse h e n =
    elim (on_auth-Concluded state to_bytes parse h e) [
      | inl r ↦ r.answer
      | inr (u, g, v, a) ↦ absurd (n a.answer)
    ]
