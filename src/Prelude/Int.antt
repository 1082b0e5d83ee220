-- ===== src/Prelude/Int.antt =====
-- Go's signed integers, over the native numbers: `negsuc n` is -(n + 1).
use myzerossl.Prelude.{ℕ, ◌-◌, ◌%◌, ◌^◌, Bool, false, ltb, leb, if◌then◌else◌, ◌&&◌}

pub data ℤ : Type 0 where
  pos : ℕ → ℤ
  negsuc : ℕ → ℤ

-- `limit > 0 && n > limit`
abbrev pub exceeds : ℤ → ℕ → Bool
exceeds (pos limit) n = ltb 0 limit && ltb limit n
exceeds (negsuc _) n = false

-- `limit > 0 && n >= limit`
abbrev pub reaches : ℤ → ℕ → Bool
reaches (pos limit) n = ltb 0 limit && leb limit n
reaches (negsuc _) n = false

-- `n > 0`
abbrev pub is_positive : ℤ → Bool
is_positive (pos n) = ltb 0 n
is_positive (negsuc _) = false

-- The `int64` with the bit pattern of a number.
unfoldable pub to_int64 : ℕ → ℤ
to_int64 n = let m = n % 2 ^ 64 in if ltb m (2 ^ 63) then pos m else negsuc (2 ^ 64 - 1 - m)
