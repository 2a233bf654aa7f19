-- ===== src/Prenorm.antt =====
-- The prenorm product of kernels/sm12x_mqa.py (`tf32_hc_prenorm_gemm_triton`), its fallback and the
-- choice between them in kernels/sm12x_deep_gemm_fallbacks.py, for one row of `x`. Triton's
-- next_power_of_2 is a parameter.
pub mod Splits
use glm_5_2_gb.Common.{
  ℕ, ◌+◌, ◌-◌, ◌*◌, min, max, Bool, true, false, ◌&&◌, ltb, ◌==◌, for_range, if◌then◌else◌,
}
use glm_5_2_gb.SparseMla.Accumulate.{cdiv}
use glm_5_2_gb.SparseMla.D512.Stores.{in_block, tile_store, grid}
use glm_5_2_gb.Indexer.{Values, total}

-- `out` and `sqrsum` of a row: by splits, or whole.
pub data Product (V : Type 0) : Type 0 where
  splits : (ℕ → ℕ → V) → (ℕ → V) → Product V
  whole : (ℕ → V) → V → Product V

module _ (v : Values) (next_power_of_2 : ℕ → ℕ) (num_k num_n num_split : ℕ) (x : ℕ → v.V)
    (fn : ℕ → ℕ → v.V) where
  open v use {V, zero_V, add, mul}

  -- The terms of a split, with zeros from its end on.
  unfoldable pub split_loop : (ℕ → V) → (ℕ → V) → ℕ → V
  unfolding total cdiv
  split_loop left right pid_s =
      let split_k = cdiv num_k num_split in
      let split_begin = pid_s * split_k in
      let split_end = min (split_begin + split_k) num_k in
      for_range (cdiv split_k 64) 0
        (λ b acc. add acc (
          total v
            (λ offset.
              let k = split_begin + offset in
              let l = if ltb k split_end then left k else zero_V in
              let r = if ltb k split_end then right k else zero_V in mul l r)
            64 (b * 64)))
        zero_V

  -- `_tf32_hc_prenorm_gemm_kernel`, at a split and a column below `num_n`
  unfoldable pub split_product : ℕ → ℕ → V
  unfolding split_loop
  split_product pid_s col = split_loop x (fn col) pid_s

  unfoldable pub prenorm_gemm_triton : (ℕ → ℕ → V) → (ℕ → V) → Product V
  unfolding split_product split_loop grid tile_store in_block cdiv
  prenorm_gemm_triton out sqrsum =
      let block_n = min (max (next_power_of_2 num_n) 16) 32 in
      splits
        (grid num_split (cdiv num_n block_n)
          (tile_store 1 num_split block_n num_n (λ pid_s col old. split_product pid_s col)) out)
        (grid num_split (cdiv num_n block_n)
          (λ pid_s pid_n stored s.
            if (pid_n == 0) && in_block 1 num_split pid_s s then split_loop x x s else stored s)
          sqrsum)

  unfoldable pub prenorm_gemm_torch : Bool → Product V
  unfolding total
  prenorm_gemm_torch is_split =
      let product = λ (col : ℕ). total v (λ k. mul (x k) (fn col k)) num_k 0 in
      let norm = total v (λ k. mul (x k) (x k)) num_k 0 in
      if is_split
      then splits (λ s col. if s == 0 then product col else zero_V)
          (λ s. if s == 0 then norm else zero_V)
      else whole product norm

  -- `_tf32_hc_prenorm_gemm_sm12x`: `out` and `sqrsum` are split, or neither is.
  unfoldable pub prenorm_gemm : Bool → (ℕ → ℕ → V) → (ℕ → V) → Product V
  unfolding prenorm_gemm_triton prenorm_gemm_torch
  prenorm_gemm is_split out sqrsum =
      if is_split then prenorm_gemm_triton out sqrsum else prenorm_gemm_torch is_split

  -- What a consumer recovers by summing over the splits.
  unfoldable pub recovered : Product V → (ℕ → V) × V
  unfolding total
  recovered (splits out sqrsum) =
      (λ col. total v (λ s. out s col) num_split 0, total v sqrsum num_split 0)
  recovered (whole product norm) = (product, norm)
