-- ===== src/Base/Int.antt =====
-- Go's int where a configuration may hold a negative one, under the library's names (its ℤ stands
-- on the unary ℕ).
use Prim.Native.Nat.{ℕ}

-- `negsuc n` is -(n + 1).
pub data ℤ : Type 0 where
  pos : ℕ → ℤ
  negsuc : ℕ → ℤ
