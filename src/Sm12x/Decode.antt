-- ===== src/Sm12x/Decode.antt =====
-- `flash_mla_with_kvcache_triton` of kernels/sm12x_sparse_mla_attn.py: the FP8 sparse decode, for one
-- query token, by the fused kernel or by the materialized ones. `next_power_of_2` is vLLM's, and
-- `empty` is what the memory of `torch.empty` holds.
pub mod Laws
use glm_5_2_gb.Common.{
  ℕ, ◌+◌, min, max, Bool, ◌&&◌, Option, none, some, ltb, leb, if◌then◌else◌, for_range,
}
use glm_5_2_gb.Common.Int.{ℤ}
use glm_5_2_gb.Float.{Arith}
use glm_5_2_gb.Softmax.{Logit, State, Row, blank}
use glm_5_2_gb.SparseMla.Accumulate.{cdiv}
use glm_5_2_gb.SparseMla.Finish.{finish_attention_state_with_sink}
use glm_5_2_gb.Sm12x.Prefill.{safe_lse, sink_of, lens_of}
use glm_5_2_gb.Sm12x.KvCache.{
  fp8ds_entry, EntryCasts, is_slot, gather_dequant, fused_attn, materialized_attn,
}

-- The host's mask: a slot of the cache and, with a `topk_length`, below it.
unfoldable pub gathered_is_valid : ℕ → (ℕ → ℤ) → Option ℕ → ℕ → Bool
unfolding is_slot
gathered_is_valid total_slots indices none col = is_slot total_slots (indices col)
gathered_is_valid total_slots indices (some topk_length) col =
    is_slot total_slots (indices col) && ltb col topk_length

-- `_FUSED_BLOCK_N`
abbrev pub fused_block_n : ℕ
fused_block_n = 32

-- The fused kernel's block of heads: 16, or for fewer heads their power of 2, padded up to 16.
unfoldable pub fused_head_block : (ℕ → ℕ) → ℕ → ℕ
fused_head_block next_power_of_2 h = max (if leb 16 h then 16 else next_power_of_2 (max h 1)) 16

unfoldable pub materialized_head_block : ℕ → ℕ
materialized_head_block h = if leb 8 h then 8 else 1

-- The result for one query token: by head, the output (none for a NaN) and the lse.
pub record Decoded (a : Arith) : Type 0 where
  pub out : ℕ → Option (Row a)
  pub lse : ℕ → Logit a.S

module _ (a : Arith) (casts : EntryCasts a) (next_power_of_2 : ℕ → ℕ) where
  -- `_fused_gather_dequant_attend`
  unfoldable pub fused_attend :
      ℕ → (ℕ → Row a) → (ℕ → ℕ) → ℕ → ℕ → ℕ → (ℕ → ℤ) → ℕ → a.S → (ℕ → State a) → ℕ → State a
  unfolding fused_head_block
  fused_attend h q cache stride_cache_s total_slots k indices lens scale sts =
      let head_block = fused_head_block next_power_of_2 h in
      for_range (cdiv h head_block) 0
        (fused_attn a casts fp8ds_entry cache stride_cache_s scale fused_block_n
          fp8ds_entry.nope_dim fp8ds_entry.rope_dim total_slots indices k lens head_block h q)
        sts

  -- `_materialized_indexed_accumulate`
  unfoldable pub materialized_accumulate :
      ℕ → ℕ → (ℕ → Row a) → (ℕ → Row a) → (ℕ → Bool) → ℕ → a.S → (ℕ → State a) → ℕ → State a
  unfolding materialized_head_block
  materialized_accumulate h d q kv valid k scale sts =
      let head_block = materialized_head_block h in
      for_range (cdiv h head_block) 0
        (materialized_attn a scale d (min 1024 (next_power_of_2 d)) head_block h q kv valid k) sts

  unfoldable pub flash_mla_with_kvcache :
      Bool
      → (ℕ → Row a)
      → (h_q : ℕ) → (ℕ → Row a)
      → (ℕ → ℕ)
      → (stride_cache_s total_slots topk : ℕ) → (ℕ → ℤ)
      → a.S
      → Option (ℕ → Logit a.S)
      → Option ℕ
      → Decoded a
  unfolding gather_dequant gathered_is_valid
  flash_mla_with_kvcache fused_enabled empty h_q q cache stride_cache_s total_slots topk indices
        softmax_scale attn_sink topk_length =
      let d_qk = fp8ds_entry.nope_dim + fp8ds_entry.rope_dim in
      let lens = lens_of a topk_length topk in
      let kv_gathered =
        gather_dequant a casts fp8ds_entry cache stride_cache_s (max 64 (next_power_of_2 d_qk))
          total_slots indices empty in
      let valid = gathered_is_valid total_slots indices topk_length in
      let sts =
        if fused_enabled
        then fused_attend h_q q cache stride_cache_s total_slots topk indices lens softmax_scale
            (λ head. blank a)
        else materialized_accumulate h_q d_qk q kv_gathered valid topk softmax_scale
            (λ head. blank a) in
      record {
        out = λ head. finish_attention_state_with_sink a (sts head) (sink_of a attn_sink head);
        lse = λ head. safe_lse a (sts head);
      }
