-- ===== src/Base/Int.antt =====
-- Signed integers, as far as the program makes them: the result of `as i64`.
use Prim.Native.Nat.{ℕ, ◌-◌, ◌^◌}
use roos.Base.Tests.{ltb, if◌then◌else◌}

-- `negsuc n` is -(n + 1).
pub data ℤ : Type 0 where
  pos : ℕ → ℤ
  negsuc : ℕ → ℤ

-- `d as i64` of a `u64`: the two's complement reading of its bits.
unfoldable pub as_i64 : ℕ → ℤ
as_i64 d = if ltb d (2 ^ 63) then pos d else negsuc (2 ^ 64 - d - 1)
