-- ===== src/Common/Loops.antt =====
-- `for k in range(i, i + n)`, by the rounds that are left.

use Prim.Native.Nat.{ℕ, zero, suc}

module _ {ℓ} {A : Type ℓ} where
  unfoldable pub for_range : ℕ → ℕ → (ℕ → A → A) → A → A
  for_range zero i body s = s
  for_range (suc n) i body s = for_range n (suc i) body (body i s)
