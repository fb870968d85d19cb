-- ===== src/Prelude/Int.antt =====
-- Signed machine integers as far as the program reads them: `negsuc n` is -(n + 1).
use Prim.Native.Nat.{ℕ, ◌+◌, ◌%◌, ◌^◌, compare, Ordering}
use mathlib.Core.Bool.{Bool, true, false}

pub data ℤ : Type 0 where
  pos : ℕ → ℤ
  negsuc : ℕ → ℤ

abbrev pub is_negative : ℤ → Bool
is_negative (pos n) = false
is_negative (negsuc n) = true

-- `x <= 0`
abbrev pub is_nonpositive : ℤ → Bool
is_nonpositive (pos n) = elim (compare n 0) [ Ordering.eq ↦ true | _ ↦ false ]
is_nonpositive (negsuc n) = true

-- `x > n` for a nonnegative bound
abbrev pub is_above : ℕ → ℤ → Bool
is_above bound (pos n) = elim (compare bound n) [ Ordering.lt ↦ true | _ ↦ false ]
is_above bound (negsuc n) = false

-- `x < n` for a nonnegative bound
abbrev pub is_below : ℕ → ℤ → Bool
is_below bound (pos n) = elim (compare n bound) [ Ordering.lt ↦ true | _ ↦ false ]
is_below bound (negsuc n) = true

abbrev pub to_ℕ : ℤ → ℕ
to_ℕ (pos n) = n
to_ℕ (negsuc n) = 0

-- `x++` on an int64 counter, as the bit pattern.
abbrev pub incr64 : ℕ → ℕ
incr64 n = (n + 1) % 2 ^ 64
