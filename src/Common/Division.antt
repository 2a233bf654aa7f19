-- ===== src/Common/Division.antt =====
-- A quotient and a remainder put together and taken apart.
use Prim.Native.Nat.{ℕ, ◌+◌, ◌*◌, ◌/◌, ◌%◌, ◌<◌}
use mathlib.Core.Path.{◌≡◌, sym, ap, ◌∙◌}
use native.Mathlib.Omega.{arith}
use native.Mathlib.Nat.{
  mod-eq_of_lt, mul-add-div_right, mul-add-mod_self_right, div-eq_of_lt, add-zero,
}

pub div-place : (q r n : ℕ) → r < n → (q * n + r) / n ≡ q
div-place q r n h =
    mul-add-div_right (omega arith) q r ∙ ap (λ x. q + x) (div-eq_of_lt h) ∙ add-zero q

pub mod-place : (q r n : ℕ) → r < n → (q * n + r) % n ≡ r
mod-place q r n h = mul-add-mod_self_right q n r ∙ mod-eq_of_lt h

pub place_unique :
    (q r q' r' n : ℕ) → r < n → r' < n → q * n + r ≡ q' * n + r' → (q ≡ q') × (r ≡ r')
place_unique q r q' r' n h h' e = (
  sym (div-place q r n h) ∙ ap (λ x. x / n) e ∙ div-place q' r' n h',
  sym (mod-place q r n h) ∙ ap (λ x. x % n) e ∙ mod-place q' r' n h',
)
