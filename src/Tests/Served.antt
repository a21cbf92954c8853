-- ===== src/Tests/Served.antt =====
-- main.rs, server.rs: a client of a started server.
use esesaetsch.Base.{
  ◌≢◌, eqb, if◌then◌else◌, List, Result, err, ℕ, ◌+◌, true, false, none, some, [], ◌∷◌, String, ok,
  ◌≡◌, refl, ◌⊎◌, All,
}
use esesaetsch.Std.Map.{IsDistinct}
use esesaetsch.Crates.{bytewise}
use esesaetsch.Auth.{PasswordAuthenticator}
use esesaetsch.RealPty.{PtySystem, RealPtyChild}
use esesaetsch.Main.Served.{IsToldToServe}
use esesaetsch.HostKey.Files.{in_memory}
use esesaetsch.Server.Types.{Handler, new_client, ServerState}
use esesaetsch.Server.Events.{publickey, open_session, shell, on_auth, on_channel}
use esesaetsch.Server.Reach.{Reach, begin, authenticate, on_wire}
use esesaetsch.HostKey.Files.{File}
use esesaetsch.Std.Map.{Map}
use esesaetsch.Target.{linux}
use esesaetsch.Config.{defaults}
use esesaetsch.Logging.{Tracing, install}
use esesaetsch.Service.Types.{System, Plist, not_root}
use esesaetsch.Main.{Args, verbosity, serve, gen_key, uninstall_service}
use esesaetsch.Main.Run.{
  Network, Platform, main, exit_code, failed, binding, listening, service_failed, host_key_exists,
  no_runtime,
}
use esesaetsch.Main.Listening.{addresses, Served, main-Served}
use esesaetsch.Tests.Crypto.{texts}
use esesaetsch.Main.Serve.{Backends, server_state}
use esesaetsch.Main.Sessions.{IsAdmitted, IsSpawned, start-sessions}
use esesaetsch.Tests.Samples.{decode_sample}
use esesaetsch.Tests.Server.{to_bytes, parse}
use esesaetsch.Tests.Main.{codec, from_str, flags, files, started, start_run}

-- A terminal is its number, and a process its arguments.
abbrev pty : PtySystem ℕ ℕ (List String) ℕ ℕ
pty = record {
  base_env = [];
  openpty = λ size n. (ok n, n + 1);
  spawn_command = λ master command n. (ok command.argv, n);
  process_id = λ proc. some 7;
  try_clone_reader = λ master n. (ok master, n);
  take_writer = λ master n. (ok master, n);
  resize = λ master size. (ok tt, master);
  kill_hangup = λ pid. ok tt;
}

abbrev Child : Type 0
Child = RealPtyChild ℕ (List String) ℕ ℕ

abbrev served : ServerState (Backends (Unit {0}) ℕ) String Child
served = server_state bytewise linux pty started

abbrev fresh : Handler (Backends (Unit {0}) ℕ) Child
fresh = new_client (record { sentinel_compares = 0; password = tt; os = 0 })

-- A key that is not listed, alice's key, a channel, a shell.
abbrev after_wrong : Handler (Backends (Unit {0}) ℕ) Child
after_wrong = (on_auth served to_bytes parse fresh (publickey "alice" (9 ∷ []))).1

abbrev after_key : Handler (Backends (Unit {0}) ℕ) Child
after_key = (on_auth served to_bytes parse after_wrong (publickey "alice" (1 ∷ 2 ∷ []))).1

abbrev after_shell : Handler (Backends (Unit {0}) ℕ) Child
after_shell = on_channel served (on_channel served after_key (open_session 4)) (shell 4)

wrong_idle : after_wrong.authenticated_user ≡ none
unfolding esesaetsch.Server.Auth.auth_publickey server_state esesaetsch.Auth.verify
    esesaetsch.Std.Map.get esesaetsch.Auth.scan bytewise
wrong_idle = refl

abbrev history : Reach served to_bytes parse after_shell
history =
    on_wire
      (on_wire
        (authenticate (authenticate (begin _) (publickey "alice" (9 ∷ [])) refl)
          (publickey "alice" (1 ∷ 2 ∷ [])) wrong_idle)
        (open_session 4))
      (shell 4)

history_tests :
    after_shell.tasks
    ≡ record {
      child = record {
        master = 0;
        reader = some 0;
        writer = some 0;
        wait_handle = some ("/bin/sh" ∷ "-i" ∷ []);
        pid = some 7;
      };
      channel = 4;
      interactive = false;
      control = [];
    }
      ∷ []
unfolding esesaetsch.Server.Sessions.shell_request esesaetsch.Server.Sessions.channel_open_session
    esesaetsch.Server.Auth.auth_publickey server_state esesaetsch.Std.Map.get esesaetsch.Auth.scan
    bytewise esesaetsch.Server.Types.find_channel esesaetsch.Server.Types.put_channel
history_tests = refl

started-IsDistinct : IsDistinct started.config.authorized_keys
unfolding esesaetsch.Std.Map.get
started-IsDistinct = (refl, tt)

start-sessions_example :
    ((started.config.password_enabled ≡ false) ⊎ (none ≡ some started.password_auth))
    × ((after_shell.tasks ≡ [])
        ⊎ ((u : String) × IsAdmitted decode_sample bytewise linux pty to_bytes parse started history
              u
            × (after_shell.authenticated_user ≡ some u)
            × All (IsSpawned linux pty) after_shell.tasks))
start-sessions_example =
    start-sessions in_memory codec decode_sample from_str none bytewise linux pty to_bytes parse
      flags "seed" files started start_run started-IsDistinct history

-- A system that has little to it, and the whole program on it.
abbrev system : System (Map File)
system = record {
  is_root = λ fs. false;
  canonicalize = λ path fs. ok path;
  contents = λ path fs. none;
  exists = λ path fs. false;
  write = λ path bytes fs. (ok tt, fs);
  remove_file = λ path fs. (err "Permission denied (os error 13)", fs);
}

abbrev plist : Plist (Map File) (Unit {0}) (Unit {0})
plist = record {
  string = λ s. tt;
  array = λ vs. tt;
  boolean = λ b. tt;
  empty = tt;
  insert = λ k v d. d;
  to_file_xml = λ path d fs. (ok tt, fs);
  from_file = λ path fs. none;
}

abbrev tracing : Tracing String String (Map File)
tracing = record {
  env_filter_new = λ text. text;
  registry = λ filter writer. filter;
  set_global_default = λ s fs. (ok tt, fs);
}

-- The port 22 is taken; the loop of the other ends with an error.
abbrev network : Network (Map File) ℕ ℕ Child String String String
network = record {
  bind = λ addr fs. (if eqb addr.port 22 then err "Address already in use" else ok addr.port, fs);
  run_on_socket = λ server listener fs. (err "connection reset", fs);
}

abbrev platform :
    Platform
      (Map File)
      String
      String
      String
      ℕ
      ℕ
      ℕ
      (List String)
      ℕ
      ℕ
      String
      String
      (Unit {0})
      (Unit {0})
      String
      String
platform = record {
  files = in_memory;
  keys = codec;
  decode = decode_sample;
  from_str = from_str;
  native = none;
  network = network;
  ct = bytewise;
  names = texts;
  os = linux;
  pty = pty;
  system = system;
  plist = plist;
  tracing = tracing;
  current_exe = λ fs. ok "/usr/bin/esesaetsch";
  render_man = ok tt;
}

abbrev on_port : ℕ → Args
on_port port = record { command = some serve; flags = record flags { port = some port } }

main_tests :
    ((main platform (ok tt) (on_port 22) "seed" files).0
      ≡ failed (binding (record defaults.bind { port = 22 }) "Address already in use"))
    × ((main platform (ok tt) (on_port 2222) "seed" files).1
        ≡ listening (record defaults.bind { port = 2222 }) ∷ [])
    × ((main platform
          (ok tt)
          (record { command = some uninstall_service; flags = flags })
          "seed"
          files).0
        ≡ failed (service_failed not_root))
    × ((main platform
          (ok tt)
          (record { command = some (gen_key "config.toml"); flags = flags })
          "seed"
          files).0
        ≡ failed (host_key_exists "config.toml"))
    × ((main platform (err "no threads") (on_port 2222) "seed" files).0 ≡ no_runtime "no threads")
unfolding main in_memory esesaetsch.Std.Map.get esesaetsch.Config.check_users
    esesaetsch.Config.check_keys esesaetsch.Config.parse_pubkey_blob
    esesaetsch.Base.split_whitespace esesaetsch.Std.Path.has_parent_dir esesaetsch.Auth.decode_users
    esesaetsch.Auth.decode_lines esesaetsch.Std.Map.insert esesaetsch.Std.Map.str_lt
main_tests = (refl, refl, refl, refl, refl)

main-Served_example :
    let (exit, printed, after) = main platform (ok tt) (on_port 2222) "seed" files in
    ((addresses printed ≡ []) × ((¬ IsToldToServe (on_port 2222)) ⊎ (exit_code exit ≡ 1)))
    ⊎ (IsToldToServe (on_port 2222)
        × Served platform
            (on_port 2222).flags
            "seed"
            (install tracing (verbosity (on_port 2222).flags) files).1
            printed
            exit)
main-Served_example = main-Served platform (on_port 2222) "seed" files
