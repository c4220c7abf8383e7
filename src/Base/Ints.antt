-- ===== src/Base/Ints.antt =====
-- Integers over the native numbers, and the casts between the machine's integers.
use Prim.Native.Nat.{ℕ, ◌-◌}
use mathlib.Core.Bool.{Bool, false, true}
use project_dawn_server.Base.Tests.{if◌then◌else◌, ltb}

pub data ℤ : Type 0 where
  pos : ℕ → ℤ
  negsuc : ℕ → ℤ

abbrev pub is_negative : ℤ → Bool
is_negative (pos n) = false
is_negative (negsuc n) = true

-- `as i32` of a `u32` or of a small `usize`.
abbrev pub as_i32 : ℕ → ℤ
as_i32 n = if ltb n 2147483648 then pos n else negsuc (4294967295 - n)

-- `as usize` of an `i32`, on a 64-bit machine.
abbrev pub as_usize : ℤ → ℕ
as_usize (pos n) = n
as_usize (negsuc n) = 18446744073709551615 - n

-- `as i64`, negated.
abbrev pub neg : ℕ → ℤ
neg ℕ.zero = pos 0
neg (ℕ.suc n) = negsuc n

-- The difference of two natural numbers.
abbrev pub minus : ℕ → ℕ → ℤ
minus m n = if ltb m n then neg (n - m) else pos (m - n)
