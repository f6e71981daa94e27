-- ===== src/Prelude/Int.antt =====
-- std::time_t and the other signed 64-bit values, as integers.
use Prim.Native.Nat.{ℕ, ◌-◌, ◌%◌, ◌^◌}
use mathlib.Core.Bool.{Bool, true, false}
use teams_mirror.Prelude.Tests.{ltb}

-- `negsuc n` is -(n + 1).
pub data ℤ : Type 0 where
  pos : ℕ → ℤ
  negsuc : ℕ → ℤ

-- a < b
unfoldable pub ltb_ℤ : ℤ → ℤ → Bool
ltb_ℤ (pos a) (pos b) = ltb a b
ltb_ℤ (pos a) (negsuc b) = false
ltb_ℤ (negsuc a) (pos b) = true
ltb_ℤ (negsuc a) (negsuc b) = ltb b a

-- static_cast<std::uint64_t>
unfoldable pub to_u64 : ℤ → ℕ
to_u64 (pos a) = a % 2 ^ 64
to_u64 (negsuc a) = 2 ^ 64 - 1 - a % 2 ^ 64
