-- ===== src/Service/Launchd.antt =====
-- service.rs, as it is built on macOS: the launchd property list. The crate plist, which writes it,
-- is an argument.
use esesaetsch.Base.{
  true, Option, none, some, String, List, [], ◌∷◌, ◌++◌, Result, ok, format, if◌then◌else◌,
}
use esesaetsch.Service.Types.{System, Plist, ServiceError, writing, removing, concluded}

abbrev pub launchd_plist_path : String
launchd_plist_path = "/Library/LaunchDaemons/com.esesaetsch.server.plist"

module _ {Fs Value Dictionary : Type 0} (plist : Plist Fs Value Dictionary) where
  abbrev pub program_args : String → Option String → List Value
  program_args binary none = plist.string binary ∷ plist.string "serve" ∷ []
  program_args binary (some cfg) =
      (plist.string binary ∷ plist.string "serve" ∷ [])
      ++ (plist.string "--config" ∷ plist.string cfg ∷ [])

  unfoldable pub launchd_dict : String → Option String → Dictionary
  launchd_dict binary config =
      let label = plist.insert "Label" (plist.string "com.esesaetsch.server") plist.empty in
      let program =
        plist.insert "ProgramArguments" (plist.array (program_args binary config)) label in
      let at_load = plist.insert "RunAtLoad" (plist.boolean true) program in
      let alive = plist.insert "KeepAlive" (plist.boolean true) at_load in
      let to_err =
        plist.insert "StandardErrorPath" (plist.string "/var/log/esesaetsch.err.log") alive in
      plist.insert "StandardOutPath" (plist.string "/var/log/esesaetsch.out.log") to_err

  unfoldable pub install_plist :
      String → Option String → Fs → Result ServiceError (List String) × Fs
  unfolding launchd_dict
  install_plist binary config fs =
      concluded (writing launchd_plist_path)
        (format ("installed launchd plist: " ∷ launchd_plist_path ∷ [])
          ∷ "activate with:"
          ∷ format ("    launchctl load -w " ∷ launchd_plist_path ∷ [])
          ∷ [])
        (plist.to_file_xml launchd_plist_path (launchd_dict binary config) fs)

module _ {Fs : Type 0} (sys : System Fs) where
  unfoldable pub uninstall_plist : Fs → Result ServiceError (List String) × Fs
  uninstall_plist fs =
      if sys.exists launchd_plist_path fs
      then concluded (removing launchd_plist_path)
          (format ("removed launchd plist: " ∷ launchd_plist_path ∷ [])
            ∷ "complete with:"
            ∷ format ("    launchctl unload " ∷ launchd_plist_path ∷ [])
            ∷ [])
          (sys.remove_file launchd_plist_path fs)
      else (
        ok (format ("no launchd plist at " ∷ launchd_plist_path ∷ "; nothing to do" ∷ []) ∷ []),
        fs,
      )
