-- ===== src/Tests/Service.antt =====
-- service.rs: installations on a file system in memory.
use esesaetsch.Base.{
  Bool, true, false, Option, none, some, String, List, [], ◌∷◌, ok, err, ◌≡◌, refl, ◌==◌, is_some,
  if◌then◌else◌,
}
use esesaetsch.Crates.{Bytes}
use esesaetsch.Target.{linux, macos, windows}
use esesaetsch.Service.Types.{System, Plist, not_root}
use esesaetsch.Service.Systemd.{exec_start}
use esesaetsch.Service.Launchd.{launchd_dict}
use esesaetsch.Service.Commands.{install, has_privilege}

data Value : Type 0 where
  text : String → Value
  flag : Bool → Value
  end : Value
  item : Value → Value → Value

abbrev Dictionary : Type 0
Dictionary = List (String × Value)

data File : Type 0 where
  plain : Bytes → File
  listed : Dictionary → File

abbrev Fs : Type 0
Fs = String → Option File

abbrev put : String → Option File → Fs → Fs
put path file fs = λ p. if p == path then file else fs p

abbrev plain_of : Option File → Option Bytes
plain_of (some (plain bytes)) = some bytes
plain_of _ = none

abbrev listed_of : Option File → Option Dictionary
listed_of (some (listed dict)) = some dict
listed_of _ = none

abbrev to_array : List Value → Value
to_array [] = end
to_array (v ∷ vs) = item v (to_array vs)

abbrev memory : System Fs
memory = record {
  is_root = λ fs. true;
  canonicalize = λ path fs. ok "/usr/bin/esesaetsch";
  contents = λ path fs. plain_of (fs path);
  exists = λ path fs. is_some (fs path);
  write = λ path bytes fs. (ok tt, put path (some (plain bytes)) fs);
  remove_file = λ path fs. (ok tt, put path none fs);
}

abbrev lists : Plist Fs Value Dictionary
lists = record {
  string = text;
  array = to_array;
  boolean = flag;
  empty = [];
  insert = λ key value dict. (key, value) ∷ dict;
  to_file_xml = λ path dict fs. (ok tt, put path (some (listed dict)) fs);
  from_file = λ path fs. listed_of (fs path);
}

abbrev bare : Fs
bare = λ path. none

abbrev config : Option String
config = some "/etc/e.toml"

abbrev unit_lines : List String
unit_lines =
    "installed systemd unit: /etc/systemd/system/esesaetsch.service" ∷ "activate with:"
    ∷ "    systemctl daemon-reload" ∷ "    systemctl enable --now esesaetsch.service" ∷ []

install_unit_run : (install linux memory lists "./esesaetsch" config bare).0 ≡ ok unit_lines
unfolding install
install_unit_run = refl

abbrev plist_lines : List String
plist_lines =
    "installed launchd plist: /Library/LaunchDaemons/com.esesaetsch.server.plist" ∷ "activate with:"
    ∷ "    launchctl load -w /Library/LaunchDaemons/com.esesaetsch.server.plist" ∷ []

abbrev removed_lines : List String
removed_lines =
    "removed launchd plist: /Library/LaunchDaemons/com.esesaetsch.server.plist" ∷ "complete with:"
    ∷ "    launchctl unload /Library/LaunchDaemons/com.esesaetsch.server.plist" ∷ []

-- The inner quotes are not escaped.
print_run :
    (install windows memory lists "e.exe" none bare).0
    ≡ ok (
        "native registration is not yet wired; run as an Administrator:"
        ∷ "    sc.exe create esesaetsch binPath= \"\"/usr/bin/esesaetsch\" serve\" start= auto DisplayName= \"esesätsch SSH server\""
        ∷ "    sc.exe description esesaetsch \"esesätsch SSH server\""
        ∷ "    sc.exe start esesaetsch" ∷ [])
unfolding install
print_run = refl

-- On Windows no privilege is asked for.
abbrev user_memory : System Fs
user_memory = record memory { is_root = λ fs. false }

user_tests :
    ((install linux user_memory lists "e" none bare).0 ≡ err not_root)
    × ((install macos user_memory lists "e" none bare).0 ≡ err not_root)
    × (has_privilege windows user_memory lists bare ≡ true)
unfolding install
user_tests = (refl, refl, refl)

-- A path with a space becomes two arguments of a unit, and one of a property list.
unit_tests :
    (exec_start "/opt/my tools/esesaetsch" none ≡ "/opt/my tools/esesaetsch serve")
    × (launchd_dict lists "/opt/my tools/esesaetsch" none
        ≡ ("StandardOutPath", text "/var/log/esesaetsch.out.log")
          ∷ ("StandardErrorPath", text "/var/log/esesaetsch.err.log")
          ∷ ("KeepAlive", flag true)
          ∷ ("RunAtLoad", flag true)
          ∷ ("ProgramArguments", item (text "/opt/my tools/esesaetsch") (item (text "serve") end))
          ∷ ("Label", text "com.esesaetsch.server")
          ∷ [])
unfolding launchd_dict
unit_tests = (refl, refl)
