-- ===== src/Base/Int.antt =====
-- Signed numbers, as an `isize` argument is.
use Prim.Native.Nat.{ℕ, suc, ◌+◌, ◌-◌, min, ◌^◌}

-- `negsuc n` is -(n + 1).
pub data ℤ : Type 0 where
  pos : ℕ → ℤ
  negsuc : ℕ → ℤ

-- `saturating_add_signed` of a 64-bit `usize`.
abbrev pub saturating_add_signed : ℕ → ℤ → ℕ
saturating_add_signed a (pos n) = min (a + n) (2 ^ 64 - 1)
saturating_add_signed a (negsuc n) = a - suc n
