-- ===== src/Security/Int.antt =====
-- Go's signed integers as exact integers (`negsuc n` is -(n + 1)), with the constants of math.
use go_tor.Prelude.{ℕ, ◌-◌, ◌^◌, Bool, true, false, ltb}

pub data ℤ : Type 0 where
  pos : ℕ → ℤ
  negsuc : ℕ → ℤ

-- `val < 0`
abbrev pub is_negative : ℤ → Bool
is_negative (pos n) = false
is_negative (negsuc n) = true

-- `val > max`, for a constant that is not negative
abbrev pub exceeds : ℤ → ℕ → Bool
exceeds (pos n) limit = ltb limit n
exceeds (negsuc n) limit = false

abbrev pub max_uint16 : ℕ
max_uint16 = 2 ^ 16 - 1

abbrev pub max_uint32 : ℕ
max_uint32 = 2 ^ 32 - 1

abbrev pub max_int64 : ℕ
max_int64 = 2 ^ 63 - 1
