-- ===== src/Service/Install.antt =====
-- service.rs: an installation, and an uninstallation after it, on each system.
use esesaetsch.Base.{true, false, Option, String, err, ◌≡◌, refl}
use esesaetsch.Target.{TargetOs, linux, macos, windows}
use esesaetsch.Service.Types.{System, Plist, not_root}
use esesaetsch.Service.Systemd.{systemd_unit_path}
use esesaetsch.Service.Launchd.{launchd_plist_path}
use esesaetsch.Service.Commands.{install, uninstall, has_privilege}

module _ {Fs Value Dictionary : Type 0} (sys : System Fs) (plist : Plist Fs Value Dictionary) where
  abbrev pub IsRemoved : TargetOs → Fs → Fs → Type 0
  IsRemoved linux before after = sys.exists "/etc/systemd/system/esesaetsch.service" after ≡ false
  IsRemoved macos before after =
      sys.exists "/Library/LaunchDaemons/com.esesaetsch.server.plist" after ≡ false
  IsRemoved windows before after = after ≡ before

  abbrev IsThere : TargetOs → Fs → Type 0
  IsThere linux fs = sys.exists systemd_unit_path fs ≡ true
  IsThere macos fs = sys.exists launchd_plist_path fs ≡ true
  IsThere windows fs = Unit

  -- Without root neither command changes anything on Unix, and both say so.
  pub not_root-unchanged :
      (os : TargetOs) (binary : String) (config : Option String) (fs : Fs)
      → has_privilege os sys plist fs ≡ false
      → (install os sys plist binary config fs ≡ (err not_root, fs))
        × (uninstall os sys plist fs ≡ (err not_root, fs))
  unfolding install uninstall
  not_root-unchanged os binary config fs h = (rw h refl, rw h refl)
