-- ===== src/Dcp/Shard/Laws.antt =====
-- Reassembly restores the global order, and every position has one owner.
use native.Mathlib.Nat.{mod-lt, div-add-mod', mul-le-mul, le_refl, div-lt_iff_lt-mul}
use native.Mathlib.Decide.{dec_lt}
use glm_5_2_gb.Common.{
  ℕ, suc, ◌+◌, ◌-◌, ◌*◌, ◌/◌, ◌%◌, ◌≤◌, ◌<◌, ◌≡◌, ◌↔◌, refl, sym, ap, ◌∙◌, arith, ◌==◌, ==_iff,
  Bool-cases, ltb, if◌then◌else◌, inl, inr,
}
use mathlib.Core.Path.{ap₂}
use glm_5_2_gb.Common.Division.{div-place, mod-place}
use glm_5_2_gb.Common.Int.{pos, negsuc, pos_part}
use glm_5_2_gb.Dcp.Shard.{gathered, reassemble, local_columns, l_max_of, owned_writeback, own}

-- All the columns of all the ranks, put in global order: column j holds global position j, and
-- -inf from the sequence's end on, also where its length is not a multiple of the ranks.
pub reassemble_lem :
    {V : Type 0} (value : ℕ → ℕ → V) (neg : V) (n s row j : ℕ)
    → 0 < n
    → j < l_max_of n s * n
    → reassemble (local_columns value neg n s) n (l_max_of n s) row j
      ≡ (if ltb j s then value row j else neg)
unfolding reassemble gathered local_columns
reassemble_lem value neg n s row j h k =
    let short : j / n < l_max_of n s = (div-lt_iff_lt-mul h).1 k in
    rw
      (
        div-place (j % n) (j / n) (l_max_of n s) short,
        mod-place (j % n) (j / n) (l_max_of n s) short,
        div-add-mod' j n,
      )
      refl

-- The columns cover the sequence.
pub l_max_of_cover : (n s : ℕ) → 0 < n → s ≤ l_max_of n s * n
unfolding l_max_of
l_max_of_cover n s h = omega (arith, div-add-mod' (s + n - 1) n, mod-lt (s + n - 1) h)

-- A rank below the rank count keeps position p at place c exactly if p is c * n + rank.
pub owned_writeback_iff :
    (n r p c : ℕ) → r < n → (owned_writeback n r (pos p) ≡ pos c) ↔ (p ≡ c * n + r)
unfolding owned_writeback
owned_writeback_iff n r p c h = (
  λ e. elim (Bool-cases (p % n == r)) [
    | inl owned ↦
        let there : pos (p / n) ≡ pos c = rw owned at e in
        let place : p / n ≡ c = ap pos_part there in
        let rest : p % n ≡ r = (==_iff (p % n) r).0 owned in
        sym (div-add-mod' p n) ∙ ap₂ (λ x y. x * n + y) place rest
    | inr other ↦ let there : negsuc 0 ≡ pos c = rw other at e in cc
  ],
  λ e. rw (e, mod-place c r n h, div-place c r n h, (==_iff r r).1 refl) refl,
)

-- For a rank below the rank count, a place is below the rank's count exactly if the position that
-- it stands for is below the length.
pub lt-own_iff : (c r n l : ℕ) → r < n → (l < own c r n) ↔ (l * n + r < c)
unfolding own
lt-own_iff c r n l h =
    let whole : c / n * n + c % n ≡ c = div-add-mod' c n in
    let rest : c % n < n = mod-lt c (omega arith) in
    elim (dec_lt l (c / n)) [
      | yes below ↦
          let room : suc l * n ≤ c / n * n = mul-le-mul below (le_refl n) in
          (λ _. omega arith, λ _. ground arith)
      | no above ↦ elim (dec_lt (c / n) l) [
        | yes beyond ↦
            let room : suc (c / n) * n ≤ l * n = mul-le-mul beyond (le_refl n) in
            (λ e. ground arith, λ e. absurd (omega arith))
        | no not_beyond ↦
            let same : l ≡ c / n = omega arith in
            let place : l * n ≡ c / n * n = ap (λ x. x * n) same in
            (λ e. ground arith, λ e. ground arith)
      ]
    ]
