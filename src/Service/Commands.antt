-- ===== src/Service/Commands.antt =====
-- service.rs: the two commands, on each system that they are built for.
use esesaetsch.Base.{Bool, true, Option, String, List, Result, ok, err, if◌then◌else◌}
use esesaetsch.Target.{TargetOs, linux, macos, windows, is_unix}
use esesaetsch.Service.Types.{System, Plist, ServiceError, not_root, resolving_binary}
use esesaetsch.Service.Systemd.{install_unit, uninstall_unit}
use esesaetsch.Service.Launchd.{install_plist, uninstall_plist}
use esesaetsch.Service.ScExe.{print_install, print_uninstall}

module _ {Fs Value Dictionary : Type 0} (os : TargetOs) (sys : System Fs)
    (plist : Plist Fs Value Dictionary) where
  -- Whether `require_privilege` lets the caller on.
  abbrev pub has_privilege : Fs → Bool
  has_privilege fs = if is_unix os then sys.is_root fs else true

  unfoldable pub install_impl : String → Option String → Fs → Result ServiceError (List String) × Fs
  unfolding install_unit install_plist print_install
  install_impl binary config fs = elim os [
    | linux ↦ install_unit sys binary config fs
    | macos ↦ install_plist plist binary config fs
    | windows ↦ (print_install binary config, fs)
  ]

  unfoldable pub uninstall_impl : Fs → Result ServiceError (List String) × Fs
  unfolding uninstall_unit uninstall_plist
  uninstall_impl fs = elim os [
    | linux ↦ uninstall_unit sys fs
    | macos ↦ uninstall_plist sys fs
    | windows ↦ (print_uninstall, fs)
  ]

  unfoldable pub install : String → Option String → Fs → Result ServiceError (List String) × Fs
  unfolding install_impl
  install binary_path config_path fs =
      if has_privilege fs
      then elim (sys.canonicalize binary_path fs) [
        | err e ↦ (err (resolving_binary binary_path e), fs)
        | ok binary ↦ install_impl binary config_path fs
      ]
      else (err not_root, fs)

  unfoldable pub uninstall : Fs → Result ServiceError (List String) × Fs
  unfolding uninstall_impl
  uninstall fs = if has_privilege fs then uninstall_impl fs else (err not_root, fs)
