-- ===== src/SparseMla/Fp8ds/Entries.antt =====
-- The entry points of kernels/sparse_mla_kernels.py for an fp8_ds_mla cache, for one token: their grids of
-- heads or of blocks of heads, and the assertions on the width, the heads and the block of heads; a
-- failing one gives `none`. Of the environment (kernels/sparse_mla_env.py), the setting is a parameter.
pub mod Slots
pub mod Sinks
pub mod Passes
use glm_5_2_gb.Common.{
  ℕ, ◌+◌, ◌*◌, min, Bool, true, false, ◌&&◌, ◌||◌, Option, none, some, ◌>>=◌, ◌>>◌, guard, ltb, leb,
  ◌==◌, for_range, if◌then◌else◌,
}
use glm_5_2_gb.Common.Int.{ℤ, pos, negsuc}
use glm_5_2_gb.Float.{Arith}
use glm_5_2_gb.Softmax.{Logit, State, Row}
use glm_5_2_gb.SparseMla.Accumulate.{cdiv}
use glm_5_2_gb.SparseMla.D512.Stores.{in_block}
use glm_5_2_gb.SparseMla.Fp8ds.{
  Layout, Casts, accumulate_global_slots, accumulate_global_slots_multihead, accumulate_paged,
  accumulate_paged_multihead, paged_with_sink,
}
use glm_5_2_gb.SparseMla.Fp8ds.Global.{global_paged_with_sink}

-- `token_fp8_dim` and the other sizes of a token
unfoldable pub token_layout : ℕ → ℕ → Layout
token_layout block_size block_stride = record {
  cache_block_size = block_size;
  token_data_size = 448 + 64 * 2;
  block_stride = block_stride;
  fp8_dim = 448;
  scale_dim = 8;
  quant_block = 64;
}

-- `triton_sparse_mla_head_block_size`
unfoldable pub head_block_size_setting : Option ℤ → Option ℕ
head_block_size_setting none = none
head_block_size_setting (some (negsuc n)) = none
head_block_size_setting (some (pos n)) = if (n == 1) || (n == 2) || (n == 4) then some n else none

-- `sparse_mla_decode_head_block_size`
unfoldable pub decode_head_block_size : Option ℤ → ℕ → ℕ
unfolding head_block_size_setting
decode_head_block_size setting num_decode_tokens = elim (head_block_size_setting setting) [
  | some configured ↦ configured
  | none ↦ if leb num_decode_tokens 4 then 1 else if ltb num_decode_tokens 16 then 2 else 4
]

-- `head_block_size in (1, 2, 4)`
unfoldable pub is_head_block : ℕ → Bool
is_head_block n = (n == 1) || (n == 2) || (n == 4)

module _ (a : Arith) (casts : Casts a) (next_power_of_2 : ℕ → ℕ) (scale : a.S)
    (head_dim q_heads : ℕ) (q : ℕ → Row a) where
  module _ (num_heads block_size block_stride : ℕ) (k_cache : ℕ → ℕ) where
    -- The assertions on the queries and the states
    unfoldable pub accepts_states : Bool
    accepts_states = (head_dim == 512) && leb num_heads q_heads

    unfoldable pub global_slots_entry : (ℕ → ℤ) → ℕ → ℕ → ℕ → (ℕ → State a) → Option (ℕ → State a)
    unfolding accepts_states token_layout accumulate_global_slots
    global_slots_entry slot_ids valid_len num_candidates candidate_offset sts = do
      guard accepts_states
      let block_d = min 1024 (next_power_of_2 head_dim)
      some (λ head.
          if ltb head num_heads
          then accumulate_global_slots a casts (token_layout block_size block_stride) k_cache
              head_dim block_d scale (q head) slot_ids valid_len num_candidates candidate_offset
              (sts head)
          else sts head)

    unfoldable pub global_slots_multihead_entry :
        (ℕ → ℤ) → ℕ → ℕ → ℕ → ℕ → (ℕ → State a) → Option (ℕ → State a)
    unfolding accepts_states token_layout accumulate_global_slots_multihead is_head_block cdiv
    global_slots_multihead_entry slot_ids valid_len num_candidates candidate_offset head_block_size
          sts =
        do
          guard (accepts_states && is_head_block head_block_size)
          let block_d = min 1024 (next_power_of_2 head_dim)
          some (
              for_range (cdiv num_heads head_block_size) 0
                (accumulate_global_slots_multihead a casts (token_layout block_size block_stride)
                  k_cache head_dim block_d scale head_block_size num_heads q slot_ids valid_len
                  num_candidates candidate_offset)
                sts)

    unfoldable pub paged_entry : (ℕ → ℕ) → ℕ → ℕ → ℕ → ℕ → (ℕ → State a) → Option (ℕ → State a)
    unfolding accepts_states token_layout accumulate_paged
    paged_entry block_table seq_len gather_len num_candidates candidate_offset sts = do
      guard accepts_states
      let block_d = min 1024 (next_power_of_2 head_dim)
      some (λ head.
          if ltb head num_heads
          then accumulate_paged a casts (token_layout block_size block_stride) k_cache head_dim
              block_d scale (q head) block_table seq_len gather_len num_candidates candidate_offset
              (sts head)
          else sts head)

    unfoldable pub paged_multihead_entry :
        (ℕ → ℕ) → ℕ → ℕ → ℕ → ℕ → ℕ → (ℕ → State a) → Option (ℕ → State a)
    unfolding accepts_states token_layout accumulate_paged_multihead is_head_block cdiv
    paged_multihead_entry block_table seq_len gather_len num_candidates candidate_offset
          head_block_size sts =
        do
          guard (accepts_states && is_head_block head_block_size)
          let block_d = min 1024 (next_power_of_2 head_dim)
          some (
              for_range (cdiv num_heads head_block_size) 0
                (accumulate_paged_multihead a casts (token_layout block_size block_stride) k_cache
                  head_dim block_d scale head_block_size num_heads q block_table seq_len gather_len
                  num_candidates candidate_offset)
                sts)

  -- `num_heads`, or the output's heads
  unfoldable pub active_or_out_heads : Option ℕ → ℕ → ℕ
  active_or_out_heads none out_heads = out_heads
  active_or_out_heads (some num_heads) out_heads = num_heads

  -- The assertions on the queries, the sinks and the outputs
  unfoldable pub accepts_outputs : ℕ → ℕ → ℕ → ℕ → Bool
  unfolding is_head_block
  accepts_outputs active out_heads sink_heads head_block_size =
      (head_dim == 512)
      && is_head_block head_block_size
      && leb active q_heads
      && leb active out_heads
      && leb active sink_heads

  -- A grid of blocks of heads: a row is stored by one program, so that what the program leaves of it
  -- is what was there at first. A row is `none` if a NaN was stored in it.
  unfoldable pub store_rows : ℕ → ℕ → (ℕ → ℕ → Option (Row a)) → (ℕ → Row a) → ℕ → Option (Row a)
  unfolding in_block cdiv
  store_rows active head_block_size program output =
      for_range (cdiv active head_block_size) 0
        (λ b rows head.
          if in_block head_block_size active b head then program b head else rows head)
        (λ head. some (output head))

  unfoldable pub paged_with_sink_entry :
      (block_size block_stride : ℕ)
      → (ℕ → ℕ)
      → (ℕ → ℕ)
      → (seq_len gather_len num_candidates candidate_offset : ℕ) → (sink_heads out_heads : ℕ)
      → (ℕ → Logit a.S)
      → (head_block_size : ℕ) → Option ℕ
      → (ℕ → Row a)
      → Option (ℕ → Option (Row a))
  unfolding active_or_out_heads accepts_outputs store_rows token_layout paged_with_sink
  paged_with_sink_entry block_size block_stride k_cache block_table seq_len gather_len
        num_candidates candidate_offset sink_heads out_heads attn_sink head_block_size num_heads
        output =
      do
        let active = active_or_out_heads num_heads out_heads
        guard (accepts_outputs active out_heads sink_heads head_block_size)
        let block_d = min 1024 (next_power_of_2 head_dim)
        some (
            store_rows active head_block_size
              (λ b.
                paged_with_sink a casts (token_layout block_size block_stride) k_cache head_dim
                  block_d scale head_block_size active q block_table seq_len gather_len
                  num_candidates candidate_offset attn_sink b output)
              output)

  unfoldable pub global_paged_with_sink_entry :
      (compressed_block_size compressed_stride swa_block_size swa_stride : ℕ)
      → (ℕ → ℕ)
      → (ℕ → ℕ)
      → (ℕ → ℤ)
      → ℕ
      → (ℕ → ℕ)
      → (seq_len gather_len num_compressed_candidates num_swa_candidates : ℕ)
      → (sink_heads out_heads : ℕ) → (ℕ → Logit a.S)
      → (head_block_size : ℕ) → Option ℕ
      → (ℕ → Row a)
      → Option (ℕ → Option (Row a))
  unfolding active_or_out_heads accepts_outputs store_rows token_layout global_paged_with_sink
  global_paged_with_sink_entry compressed_block_size compressed_stride swa_block_size swa_stride
        compressed_k_cache swa_k_cache slot_ids topk_len block_table seq_len gather_len
        num_compressed_candidates num_swa_candidates sink_heads out_heads attn_sink head_block_size
        num_heads output =
      do
        let active = active_or_out_heads num_heads out_heads
        guard (accepts_outputs active out_heads sink_heads head_block_size)
        let block_d = min 1024 (next_power_of_2 head_dim)
        some (
            store_rows active head_block_size
              (λ b.
                global_paged_with_sink a casts
                  (token_layout compressed_block_size compressed_stride) compressed_k_cache
                  swa_block_size swa_stride swa_k_cache head_dim block_d scale head_block_size
                  active q slot_ids topk_len block_table seq_len gather_len
                  num_compressed_candidates num_swa_candidates attn_sink b output)
              output)
