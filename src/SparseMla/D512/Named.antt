-- ===== src/SparseMla/D512/Named.antt =====
-- What the D512 kernels take the indices to name, and what they compute where nothing is -inf.
use glm_5_2_gb.Common.{ℕ, ◌<◌, true, ◌≡◌, ◌⊎◌, inl, inr, refl, arith, if◌then◌else◌}
use glm_5_2_gb.Common.Int.{ℤ}
use glm_5_2_gb.Float.{Arith}
use glm_5_2_gb.Softmax.{Logit, neg_inf, fin, Row, Candidates, exp_below}
use glm_5_2_gb.SparseMla.Accumulate.{row_of}
use glm_5_2_gb.SparseMla.Accumulate.Loop.{candidates, score_of}
use glm_5_2_gb.SparseMla.Finish.{exp_or, exp_diff, maximum}
use glm_5_2_gb.Sm12x.KvCache.{is_slot}
use glm_5_2_gb.SparseMla.D512.{BlockSizes, sizes_ok}

-- The row that an index names: one that is padding or out of range names a row of zeros.
unfoldable pub named_row : (a : Arith) → ℕ → (ℕ → Row a) → ℤ → Row a
named_row a num_kv_rows kv_flat kv_index d =
    if is_slot num_kv_rows kv_index then kv_flat (row_of kv_index) d else a.zero_E

-- The candidates of the first `n` indices, each of them with its row and its score.
unfoldable pub named_candidates :
    (a : Arith) → ℕ → a.S → ℕ → Row a → (ℕ → Row a) → (ℕ → ℤ) → ℕ → Candidates a
named_candidates a head_dim scale num_kv_rows q kv_flat indices n =
    candidates a (λ i. true)
      (λ i. score_of a head_dim scale q (named_row a num_kv_rows kv_flat (indices i)))
      (λ i. named_row a num_kv_rows kv_flat (indices i)) n 0

-- A set of block sizes that is accepted has no empty block.
pub sizes_positive :
    (b : BlockSizes)
    → sizes_ok b ≡ true
    → (0 < b.head_block_size) × (0 < b.candidate_block_size) × (0 < b.value_block_size)
unfolding sizes_ok
sizes_positive b h = ground arith

module _ (a : Arith) where
  open a use {S, W, zero_S}

  pub exp_or-eq : (nan : W) (x : Logit S) (t : S) → exp_or a nan x (fin t) ≡ exp_below a x t
  unfolding exp_or exp_diff exp_below
  exp_or-eq nan neg_inf t = refl
  exp_or-eq nan (fin m) t = refl

  pub maximum-is_fin : (m : S) (y : Logit S) → (t : S) × (maximum a (fin m) y ≡ fin t)
  unfolding maximum
  maximum-is_fin m neg_inf = (m, refl)
  maximum-is_fin m (fin n) = (a.max_S m n, refl)

  pub Logit-cases : (x : Logit S) → (t : S) × ((x ≡ neg_inf) ⊎ (x ≡ fin t))
  Logit-cases neg_inf = (zero_S, inl refl)
  Logit-cases (fin m) = (m, inr refl)
