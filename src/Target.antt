-- ===== src/Target.antt =====
-- The systems that the program is built for, `cfg(target_os)` and `cfg(unix)`.
use esesaetsch.Base.{Bool, true, false}

pub data TargetOs : Type 0 where
  linux macos windows : TargetOs

abbrev pub is_unix : TargetOs → Bool
is_unix linux = true
is_unix macos = true
is_unix windows = false
