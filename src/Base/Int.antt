-- ===== src/Base/Int.antt =====
-- Signed integers, as `i32` values are read. `negsuc n` is -(n + 1).
use Prim.Native.Nat.{ℕ}
use mathlib.Core.Option.{Option, none, some}
use esesaetsch.Base.Tests.{ltb, if◌then◌else◌}

pub data ℤ : Type 0 where
  pos : ℕ → ℤ
  negsuc : ℕ → ℤ

-- `u32::try_from` of an `i32`
abbrev pub u32_of_i32 : ℤ → Option ℕ
u32_of_i32 (pos n) = some n
u32_of_i32 (negsuc n) = none

-- `u16::try_from` of a `u32`
abbrev pub u16_of_u32 : ℕ → Option ℕ
u16_of_u32 n = if ltb n 0x10000 then some n else none

-- `i32::try_from` of a `u32`
abbrev pub i32_of_u32 : ℕ → Option ℤ
i32_of_u32 n = if ltb n 0x80000000 then some (pos n) else none
