-- ===== src/Common/Int.antt =====
-- Signed integers over the native numbers, and the ranges of int64_t and int.
use Prim.Native.Nat.{ℕ, suc, ◌-◌, ◌+◌, ◌%◌, ◌^◌, ◌<◌}
use mathlib.Core.Path.{◌≡◌}
use mathlib.Core.Bool.{Bool}
use native.Mathlib.Omega.{arith}
use mathlib.Core.Logic.{inl, inr}
use tool_debug.Common.Tests.{Bool-cases, ltb→lt, ltb, ◌==◌, if◌then◌else◌}

-- `negsuc n` is -(n + 1).
pub data ℤ : Type 0 where
  pos : ℕ → ℤ
  negsuc : ℕ → ℤ

abbrev pub pos_part : ℤ → ℕ
pos_part (pos n) = n
pos_part (negsuc n) = 0

abbrev pub neg_part : ℤ → ℕ
neg_part (pos n) = 0
neg_part (negsuc n) = suc n

abbrev pub ltb_ℤ : ℤ → ℤ → Bool
ltb_ℤ a b = ltb (pos_part a + neg_part b) (pos_part b + neg_part a)

abbrev pub eqb_ℤ : ℤ → ℤ → Bool
eqb_ℤ a b = (pos_part a + neg_part b) == (pos_part b + neg_part a)

-- The values of int64_t.
abbrev pub IsInt64 : ℤ → Type 0
IsInt64 (pos n) = n < 2 ^ 63
IsInt64 (negsuc n) = n < 2 ^ 63

-- `static_cast<int>` of an int64_t: the low 32 bits, read as a signed number.
abbrev pub of_word32 : ℕ → ℤ
of_word32 w = if ltb w (2 ^ 31) then pos w else negsuc (2 ^ 32 - w - 1)

pub to_int : ℤ → ℤ
to_int (pos n) = of_word32 (n % 2 ^ 32)
to_int (negsuc n) = of_word32 (2 ^ 32 - 1 - n % 2 ^ 32)

abbrev pub IsInt32 : ℤ → Type 0
IsInt32 (pos n) = n < 2 ^ 31
IsInt32 (negsuc n) = n < 2 ^ 31

pub to_int-eq_self : (i : ℤ) → IsInt32 i → to_int i ≡ i
unfolding to_int
to_int-eq_self (pos n) h = ground arith
to_int-eq_self (negsuc n) h = ground arith

pub IsInt32-IsInt64 : (i : ℤ) → IsInt32 i → IsInt64 i
IsInt32-IsInt64 (pos n) h = omega arith
IsInt32-IsInt64 (negsuc n) h = omega arith

of_word32-IsInt32 : (w : ℕ) → w < 2 ^ 32 → IsInt32 (of_word32 w)
of_word32-IsInt32 w h = elim (Bool-cases (ltb w (2 ^ 31))) [
  | inl low ↦ rw low (ltb→lt w (2 ^ 31) low)
  | inr high ↦ rw high (ground arith)
]

pub to_int-IsInt32 : (i : ℤ) → IsInt32 (to_int i)
unfolding to_int
to_int-IsInt32 (pos n) = of_word32-IsInt32 (n % 2 ^ 32) (omega arith)
to_int-IsInt32 (negsuc n) = of_word32-IsInt32 (2 ^ 32 - 1 - n % 2 ^ 32) (omega arith)
