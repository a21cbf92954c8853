-- ===== src/Service/Systemd.antt =====
-- service.rs, as it is built on Linux: the systemd unit.
use esesaetsch.Base.{Option, none, some, String, List, [], ◌∷◌, Result, ok, format, if◌then◌else◌}
use esesaetsch.Std.Utf8.{as_bytes}
use esesaetsch.Service.Types.{System, ServiceError, writing, removing, concluded}

abbrev pub systemd_unit_path : String
systemd_unit_path = "/etc/systemd/system/esesaetsch.service"

abbrev pub exec_start : String → Option String → String
exec_start binary none = format (binary ∷ " serve" ∷ [])
exec_start binary (some cfg) = format (binary ∷ " serve --config " ∷ cfg ∷ [])

unfoldable pub unit_text : String → Option String → String
unit_text binary config = format (
    "[Unit]\n"
    ∷ "Description=esesätsch SSH server\n"
    ∷ "After=network.target\n"
    ∷ "\n"
    ∷ "[Service]\n"
    ∷ "Type=simple\n"
    ∷ "ExecStart="
    ∷ exec_start binary config
    ∷ "\n"
    ∷ "Restart=on-failure\n"
    ∷ "RestartSec=5s\n"
    ∷ "\n"
    ∷ "[Install]\n"
    ∷ "WantedBy=multi-user.target\n"
    ∷ [])

module _ {Fs : Type 0} (sys : System Fs) where
  -- The lines that are printed, or the error.
  unfoldable pub install_unit : String → Option String → Fs → Result ServiceError (List String) × Fs
  unfolding unit_text as_bytes
  install_unit binary config fs =
      concluded (writing systemd_unit_path)
        (format ("installed systemd unit: " ∷ systemd_unit_path ∷ [])
          ∷ "activate with:"
          ∷ "    systemctl daemon-reload"
          ∷ "    systemctl enable --now esesaetsch.service"
          ∷ [])
        (sys.write systemd_unit_path (as_bytes (unit_text binary config)) fs)

  unfoldable pub uninstall_unit : Fs → Result ServiceError (List String) × Fs
  uninstall_unit fs =
      if sys.exists systemd_unit_path fs
      then concluded (removing systemd_unit_path)
          (format ("removed systemd unit: " ∷ systemd_unit_path ∷ [])
            ∷ "complete with:"
            ∷ "    systemctl daemon-reload"
            ∷ [])
          (sys.remove_file systemd_unit_path fs)
      else (
        ok (format ("no systemd unit at " ∷ systemd_unit_path ∷ "; nothing to do" ∷ []) ∷ []),
        fs,
      )
