-- ===== src/Prelude/Int.antt =====
-- Signed integers over the native numbers, and the wrap-around of 64 bits.
use Prim.Native.Nat.{ℕ, zero, suc, ◌-◌, ◌*◌, ◌%◌, ◌^◌}
use glusterd.Prelude.Tests.{ltb, if◌then◌else◌}

-- `negsuc n` is -(n + 1).
pub data ℤ : Type 0 where
  pos : ℕ → ℤ
  negsuc : ℕ → ℤ

abbrev pub neg : ℕ → ℤ
neg n = elim n [ zero ↦ pos 0 | suc k ↦ negsuc k ]

-- The 64 bits of a number, and the number that they stand for.
abbrev pub bits_64 : ℤ → ℕ
bits_64 (pos n) = n % 2 ^ 64
bits_64 (negsuc n) = 2 ^ 64 - 1 - n % 2 ^ 64

abbrev pub of_bits_64 : ℕ → ℤ
of_bits_64 b = if ltb b (2 ^ 63) then pos b else negsuc (2 ^ 64 - 1 - b)

-- The product in `int64`.
abbrev pub mul_64 : ℤ → ℕ → ℤ
mul_64 z k = of_bits_64 (bits_64 z * k % 2 ^ 64)
