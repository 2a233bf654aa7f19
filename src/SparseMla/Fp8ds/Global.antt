-- ===== src/SparseMla/Fp8ds/Global.antt =====
-- `_fp8ds_global_paged_attention_with_sink_multihead_kernel` of kernels/sparse_mla_kernels.py: in one
-- pass, the compressed rows by global slots, the sliding window by pages, and the sink. The two caches
-- have the same token layout, and pages of their own size.
pub mod Laws
use glm_5_2_gb.Common.{ℕ, ◌+◌, ◌-◌, ◌*◌, Bool, ◌&&◌, Option, ltb, if◌then◌else◌, for_range}
use glm_5_2_gb.Common.Int.{ℤ}
use glm_5_2_gb.Float.{Arith}
use glm_5_2_gb.Softmax.{Logit, State, Row, blank}
use glm_5_2_gb.SparseMla.Accumulate.{is_nonneg, row_of, visit, load_queries}
use glm_5_2_gb.SparseMla.Fp8ds.{
  Layout, Casts, slot_row, paged_row, load_sink, finish_lane, store_outputs,
}

-- The window's cache has the same tokens in pages of its own.
unfoldable pub swa_layout : Layout → ℕ → ℕ → Layout
swa_layout l swa_cache_block_size swa_block_stride = record l {
  cache_block_size = swa_cache_block_size;
  block_stride = swa_block_stride;
}

module _ (a : Arith) (casts : Casts a) (l : Layout) (compressed_k_cache : ℕ → ℕ)
    (swa_cache_block_size swa_block_stride : ℕ) (swa_k_cache : ℕ → ℕ) (head_dim block_d : ℕ)
    (scale : a.S) where
  unfoldable pub global_body : (ℕ → Row a) → (ℕ → ℤ) → ℕ → ℕ → (ℕ → State a) → ℕ → State a
  global_body queries slot_ids topk_len i lanes =
      let slot_id = slot_ids i in
      if ltb i topk_len && is_nonneg slot_id
      then (λ lane.
          visit a head_dim block_d scale (queries lane)
            (slot_row a casts l compressed_k_cache (row_of slot_id)) (lanes lane))
      else lanes

  unfoldable pub swa_body : (ℕ → Row a) → (ℕ → ℕ) → ℕ → ℕ → ℕ → (ℕ → State a) → ℕ → State a
  swa_body queries block_table start_pos gather_len i lanes =
      if ltb i gather_len
      then (λ lane.
          visit a head_dim block_d scale (queries lane)
            (paged_row a casts (swa_layout l swa_cache_block_size swa_block_stride) swa_k_cache
              block_table (start_pos + i))
            (lanes lane))
      else lanes

  unfoldable pub global_paged_with_sink :
      ℕ
      → ℕ
      → (ℕ → Row a)
      → (ℕ → ℤ)
      → ℕ
      → (ℕ → ℕ)
      → ℕ
      → ℕ
      → ℕ
      → ℕ
      → (ℕ → Logit a.S)
      → ℕ
      → (ℕ → Row a)
      → ℕ
      → Option (Row a)
  global_paged_with_sink head_block num_heads q slot_ids topk_len block_table seq_len gather_len
        num_compressed_candidates num_swa_candidates sink head_block_idx outs =
      let queries = load_queries a head_dim block_d scale num_heads q head_block head_block_idx in
      let compressed =
        for_range num_compressed_candidates 0 (global_body queries slot_ids topk_len)
          (λ lane. blank a) in
      let lanes =
        for_range num_swa_candidates 0
          (swa_body queries block_table (seq_len - gather_len) gather_len) compressed in
      store_outputs a casts l compressed_k_cache head_dim block_d scale num_heads outs head_block
        head_block_idx
        (λ lane. finish_lane a casts l compressed_k_cache head_dim block_d scale (lanes lane) (
          load_sink a casts l compressed_k_cache head_dim block_d scale num_heads sink head_block
            head_block_idx lane))
