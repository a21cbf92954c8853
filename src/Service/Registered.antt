-- ===== src/Service/Registered.antt =====
-- service.rs: what an installation registers with the service manager, on each system.
use esesaetsch.Base.{true, Option, none, some, String, List, [], ◌∷◌, ◌≡◌, refl, format}
use esesaetsch.Std.Utf8.{as_bytes}
use esesaetsch.Target.{TargetOs, linux, macos, windows}
use esesaetsch.Service.Types.{System, Plist}
use esesaetsch.Service.Systemd.{unit_text}
use esesaetsch.Service.Launchd.{launchd_dict}
use esesaetsch.Service.Commands.{has_privilege}

module _ {Fs Value Dictionary : Type 0} (sys : System Fs) (plist : Plist Fs Value Dictionary) where
  -- The arguments of the service: the binary, `serve`, and the configuration if there is one.
  abbrev pub arguments : String → Option String → List String
  arguments path none = path ∷ "serve" ∷ []
  arguments path (some config) = path ∷ "serve" ∷ "--config" ∷ config ∷ []

  abbrev pub command_line : String → Option String → String
  command_line path none = format (path ∷ " serve" ∷ [])
  command_line path (some config) = format (path ∷ " serve --config " ∷ config ∷ [])

  abbrev pub texts : List String → List Value
  texts [] = []
  texts (word ∷ words) = plist.string word ∷ texts words

  -- The service manager's file says to run the binary at this path with the configuration. On
  -- Windows nothing is changed.
  abbrev pub IsRegistered : TargetOs → String → Option String → Fs → Fs → Type 0
  IsRegistered linux path config before after =
      sys.contents "/etc/systemd/system/esesaetsch.service" after
      ≡ some (
          as_bytes (
            format (
              "[Unit]\n"
              ∷ "Description=esesätsch SSH server\n"
              ∷ "After=network.target\n"
              ∷ "\n"
              ∷ "[Service]\n"
              ∷ "Type=simple\n"
              ∷ "ExecStart="
              ∷ command_line path config
              ∷ "\n"
              ∷ "Restart=on-failure\n"
              ∷ "RestartSec=5s\n"
              ∷ "\n"
              ∷ "[Install]\n"
              ∷ "WantedBy=multi-user.target\n"
              ∷ [])))
  IsRegistered macos path config before after =
      plist.from_file "/Library/LaunchDaemons/com.esesaetsch.server.plist" after
      ≡ some (
          plist.insert "StandardOutPath" (plist.string "/var/log/esesaetsch.out.log") (
            plist.insert "StandardErrorPath" (plist.string "/var/log/esesaetsch.err.log") (
              plist.insert "KeepAlive" (plist.boolean true) (
                plist.insert "RunAtLoad" (plist.boolean true) (
                  plist.insert "ProgramArguments" (plist.array (texts (arguments path config)))
                    (plist.insert "Label" (plist.string "com.esesaetsch.server") plist.empty))))))
  IsRegistered windows path config before after = after ≡ before

  -- The caller is root, where the system has a root.
  abbrev pub IsAllowed : TargetOs → Fs → Type 0
  IsAllowed linux fs = sys.is_root fs ≡ true
  IsAllowed macos fs = sys.is_root fs ≡ true
  IsAllowed windows fs = Unit

  pub has_privilege-IsAllowed :
      (os : TargetOs) (fs : Fs) → has_privilege os sys plist fs ≡ true → IsAllowed os fs
  has_privilege-IsAllowed linux fs h = h
  has_privilege-IsAllowed macos fs h = h
  has_privilege-IsAllowed windows fs h = tt

  pub unit_text-command_line :
      (path : String) (config : Option String)
      → unit_text path config
        ≡ format (
            "[Unit]\n"
            ∷ "Description=esesätsch SSH server\n"
            ∷ "After=network.target\n"
            ∷ "\n"
            ∷ "[Service]\n"
            ∷ "Type=simple\n"
            ∷ "ExecStart="
            ∷ command_line path config
            ∷ "\n"
            ∷ "Restart=on-failure\n"
            ∷ "RestartSec=5s\n"
            ∷ "\n"
            ∷ "[Install]\n"
            ∷ "WantedBy=multi-user.target\n"
            ∷ [])
  unfolding unit_text
  unit_text-command_line path none = refl
  unit_text-command_line path (some config) = refl

  pub launchd_dict-arguments :
      (path : String) (config : Option String)
      → launchd_dict plist path config
        ≡ plist.insert "StandardOutPath" (plist.string "/var/log/esesaetsch.out.log") (
            plist.insert "StandardErrorPath" (plist.string "/var/log/esesaetsch.err.log") (
              plist.insert "KeepAlive" (plist.boolean true) (
                plist.insert "RunAtLoad" (plist.boolean true) (
                  plist.insert "ProgramArguments"
                    (plist.array (texts (arguments path config)))
                    (plist.insert "Label" (plist.string "com.esesaetsch.server") plist.empty)))))
  unfolding launchd_dict
  launchd_dict-arguments path none = refl
  launchd_dict-arguments path (some config) = refl
