-- ===== src/Base/Int.antt =====
-- Go's signed numbers: the integers, and int64 with its wrap-around.
use Prim.Native.Nat.{ℕ, suc, ◌-◌, ◌*◌, ◌%◌, ◌^◌}
use mathlib.Core.Bool.{Bool, false}
use mcpx.Base.Tests.{ltb, if◌then◌else◌}

-- `negsuc n` is -(n + 1).
pub data ℤ : Type 0 where
  pos : ℕ → ℤ
  negsuc : ℕ → ℤ

abbrev pub is_positive : ℤ → Bool
is_positive (pos n) = ltb 0 n
is_positive (negsuc n) = false

-- The number that a value above 0 stands for.
abbrev pub pos_part : ℤ → ℕ
pos_part (pos n) = n
pos_part (negsuc n) = 0

-- The int64 with a bit pattern.
abbrev pub from_bits : ℕ → ℤ
from_bits r = if ltb r (2 ^ 63) then pos r else negsuc (2 ^ 64 - r - 1)

-- An int64 times a constant.
unfoldable pub times64 : ℤ → ℕ → ℤ
times64 (pos n) c = from_bits ((n * c) % 2 ^ 64)
times64 (negsuc n) c = from_bits ((2 ^ 64 - ((suc n * c) % 2 ^ 64)) % 2 ^ 64)
