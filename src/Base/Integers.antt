-- ===== src/Base/Integers.antt =====
-- The integers over the native numbers, and those of a machine width.
use Prim.Native.Nat.{ℕ, ◌-◌, ◌%◌, ◌^◌}
use mathlib.Core.Bool.{Bool, false}
use pyroduct.Base.Tests.{ltb, if◌then◌else◌}

pub data ℤ : Type 0 where
  pos negsuc : ℕ → ℤ

-- `0 ≤ v < 2 ^ w`
abbrev pub in_unsigned : ℕ → ℤ → Bool
in_unsigned w (pos n) = ltb n (2 ^ w)
in_unsigned w (negsuc n) = false

-- `- 2 ^ (w - 1) ≤ v < 2 ^ (w - 1)`
abbrev pub in_signed : ℕ → ℤ → Bool
in_signed w (pos n) = ltb n (2 ^ (w - 1))
in_signed w (negsuc n) = ltb n (2 ^ (w - 1))

-- The remainder modulo `2 ^ w`.
abbrev pub wrap_unsigned : ℕ → ℤ → ℕ
wrap_unsigned w (pos n) = n % 2 ^ w
wrap_unsigned w (negsuc n) = 2 ^ w - 1 - n % 2 ^ w

-- The upper half of the remainders stands for the negative numbers.
abbrev pub wrap_signed : ℕ → ℤ → ℤ
wrap_signed w v =
    let r = wrap_unsigned w v in if ltb r (2 ^ (w - 1)) then pos r else negsuc (2 ^ w - 1 - r)
