-- ===== src/Service/ScExe.antt =====
-- service.rs, as it is built on Windows: the commands that the operator is asked to run.
use esesaetsch.Base.{Option, none, some, String, List, [], ◌∷◌, Result, ok, format}
use esesaetsch.Service.Types.{ServiceError}

abbrev pub bin_path : String → Option String → String
bin_path bin none = format ("\"" ∷ bin ∷ "\" serve" ∷ [])
bin_path bin (some c) = format ("\"" ∷ bin ∷ "\" serve --config \"" ∷ c ∷ "\"" ∷ [])

unfoldable pub print_install : String → Option String → Result ServiceError (List String)
print_install binary config = ok (
    "native registration is not yet wired; run as an Administrator:"
    ∷ format (
        "    sc.exe create esesaetsch binPath= \""
        ∷ bin_path binary config
        ∷ "\" start= auto DisplayName= \"esesätsch SSH server\""
        ∷ [])
    ∷ "    sc.exe description esesaetsch \"esesätsch SSH server\""
    ∷ "    sc.exe start esesaetsch"
    ∷ [])

abbrev pub print_uninstall : Result ServiceError (List String)
print_uninstall = ok (
    "run as an Administrator:" ∷ "    sc.exe stop esesaetsch" ∷ "    sc.exe delete esesaetsch" ∷ [])
