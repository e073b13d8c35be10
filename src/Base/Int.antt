-- ===== src/Base/Int.antt =====
-- C ints where a negative value is part of an interface, under the library's names.
use Prim.Native.Nat.{ℕ, ◌+◌, ◌-◌}
use mathlib.Core.Bool.{Bool, false}
use ssuos_mminos.Base.Tests.{ltb, leb, if◌then◌else◌}

-- `negsuc n` is -(n + 1).
pub data ℤ : Type 0 where
  pos : ℕ → ℤ
  negsuc : ℕ → ℤ

-- The usual error result.
abbrev pub minus_one : ℤ
minus_one = negsuc 0

abbrev pub incr : ℤ → ℤ
incr (pos n) = pos (n + 1)
incr (negsuc n) = if leb n 0 then pos 0 else negsuc (n - 1)

abbrev pub decr : ℤ → ℤ
decr (pos n) = if leb n 0 then minus_one else pos (n - 1)
decr (negsuc n) = negsuc (n + 1)

abbrev pub positive : ℤ → Bool
positive (pos n) = ltb 0 n
positive (negsuc n) = false

-- a - b
abbrev pub minus : ℕ → ℕ → ℤ
minus a b = if leb b a then pos (a - b) else negsuc (b - a - 1)
