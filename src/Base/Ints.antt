-- ===== src/Base/Ints.antt =====
-- Go's int as an integer, for the values that come from outside and may be negative. The library's
-- ℤ stands on the unary ℕ.
use Prim.Native.Nat.{ℕ}

-- `negsuc n` is -(n + 1).
pub data ℤ : Type 0 where
  pos : ℕ → ℤ
  negsuc : ℕ → ℤ

-- `0 < i`, and `i` where it is positive.
abbrev pub to_ℕ : ℤ → ℕ
to_ℕ (pos n) = n
to_ℕ (negsuc n) = 0
