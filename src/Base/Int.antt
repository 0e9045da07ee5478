-- ===== src/Base/Int.antt =====
-- Signed integers over the native numbers: what the code compares and divides.
use Prim.Native.Nat.{ℕ, suc, ◌+◌, ◌-◌, ◌/◌, ◌%◌, ◌^◌}
use mathlib.Core.Bool.{Bool, true, false}
use panaudia.Base.Tests.{ltb, leb, eqb, if◌then◌else◌}

-- `negsuc n` is -(n + 1).
pub data ℤ : Type 0 where
  pos : ℕ → ℤ
  negsuc : ℕ → ℤ

abbrev pub is_negative : ℤ → Bool
is_negative (pos n) = false
is_negative (negsuc n) = true

abbrev pub is_zero : ℤ → Bool
is_zero (pos n) = eqb n 0
is_zero (negsuc n) = false

abbrev pub ltb_ℤ : ℤ → ℤ → Bool
ltb_ℤ (pos a) (pos b) = ltb a b
ltb_ℤ (pos a) (negsuc b) = false
ltb_ℤ (negsuc a) (pos b) = true
ltb_ℤ (negsuc a) (negsuc b) = ltb b a

-- The `int64` with the bit pattern of a number modulo 2 ^ 64.
abbrev pub signed64 : ℕ → ℤ
signed64 n = let w = n % 2 ^ 64 in if ltb w (2 ^ 63) then pos w else negsuc (2 ^ 64 - w - 1)

-- `(a + d) / m`, rounded down, for a number `a` and an integer `d`.
abbrev pub floor_sum : ℕ → ℤ → ℕ → ℤ
floor_sum a (pos d) m = pos ((a + d) / m)
floor_sum a (negsuc d) m =
    if leb (suc d) a then pos ((a - suc d) / m) else negsuc ((suc d - a - 1) / m)
