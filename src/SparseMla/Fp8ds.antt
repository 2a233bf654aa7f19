-- ===== src/SparseMla/Fp8ds.antt =====
-- The kernels of kernels/sparse_mla_kernels.py that read rows from an fp8_ds_mla cache, for one token:
-- by global slots, or by the pages of a sequence. A page holds the data of its tokens (`fp8_dim` fp8
-- bytes, then bf16 pairs), then their scales, one byte for each `quant_block` dimensions. A cache is a
-- function from an address to a byte. Triton's casts of bytes to floats are a parameter.
pub mod Laws
pub mod Global
pub mod Sink
pub mod Pages
pub mod Entries
use glm_5_2_gb.Common.{
  ℕ, ◌+◌, ◌-◌, ◌*◌, ◌/◌, ◌%◌, Bool, true, false, ◌&&◌, ◌||◌, Option, none, some, ◌>>=◌, ltb, leb,
  if◌then◌else◌, for_range,
}
use glm_5_2_gb.Common.Int.{ℤ}
use glm_5_2_gb.Float.{Arith}
use glm_5_2_gb.Softmax.{Logit, neg_inf, fin, State, Row, blank}
use glm_5_2_gb.SparseMla.Accumulate.{
  is_nonneg, row_of, local_eff, mask_row, visit, store_state, load_heads, load_queries, store_heads,
}
use glm_5_2_gb.SparseMla.Finish.{is_finite, maximum, exp_diff}

pub record Layout : Type 0 where
  pub cache_block_size : ℕ
  pub token_data_size : ℕ
  pub block_stride : ℕ
  pub fp8_dim : ℕ
  pub scale_dim : ℕ
  pub quant_block : ℕ

-- A byte as float8e4nv; 2 to a byte's value less 127; two bytes, the low one first, as bfloat16.
pub record Casts (a : Arith) : Type 0 where
  pub fp8 : ℕ → a.E
  pub exp2_less_127 : ℕ → a.W
  pub bf16 : ℕ → ℕ → a.E

-- `token_data_ptr` and `token_scale_ptr`, from the start of the cache
unfoldable pub token_data_ptr : Layout → ℕ → ℕ → ℕ
token_data_ptr l block_idx pos_in_block =
    block_idx * l.block_stride + pos_in_block * l.token_data_size

unfoldable pub token_scale_ptr : Layout → ℕ → ℕ → ℕ
token_scale_ptr l block_idx pos_in_block =
    block_idx * l.block_stride + l.cache_block_size * l.token_data_size + pos_in_block * l.scale_dim

module _ (a : Arith) (casts : Casts a) (l : Layout) (k_cache : ℕ → ℕ) where
  -- `tl.where(fp8_mask, x_dequant, rope)`; `visit` masks the dimensions from `head_dim` on.
  unfoldable pub dequant : ℕ → ℕ → Row a
  unfolding token_data_ptr token_scale_ptr
  dequant block_idx pos_in_block d =
      let data_ptr = token_data_ptr l block_idx pos_in_block in
      let encoded_scale = k_cache (token_scale_ptr l block_idx pos_in_block + d / l.quant_block) in
      let rope = data_ptr + l.fp8_dim + 2 * (d - l.fp8_dim) in
      if ltb d l.fp8_dim
      then a.act (casts.exp2_less_127 encoded_scale) (casts.fp8 (k_cache (data_ptr + d)))
      else casts.bf16 (k_cache rope) (k_cache (rope + 1))

  unfoldable pub slot_row : ℕ → Row a
  slot_row slot_id = dequant (slot_id / l.cache_block_size) (slot_id % l.cache_block_size)

  -- The row of a position, through the sequence's block table.
  unfoldable pub paged_row : (ℕ → ℕ) → ℕ → Row a
  paged_row block_table p = dequant (block_table (p / l.cache_block_size)) (p % l.cache_block_size)

  module _ (head_dim block_d : ℕ) (scale : a.S) where
    unfoldable pub slots_body : Row a → (ℕ → ℤ) → ℕ → State a → State a
    slots_body q slot_ids i st =
        let slot_id = slot_ids i in
        if is_nonneg slot_id
        then visit a head_dim block_d scale q (slot_row (row_of slot_id)) st
        else st

    unfoldable pub accumulate_global_slots : Row a → (ℕ → ℤ) → ℕ → ℕ → ℕ → State a → State a
    accumulate_global_slots q slot_ids valid_len num_candidates candidate_offset st =
        let loaded = record st { acc = mask_row a head_dim st.acc } in
        store_state a head_dim block_d st (
          for_range (local_eff num_candidates valid_len candidate_offset) 0 (slots_body q slot_ids)
            loaded)

    -- `start_pos` is where the gathered window begins; a caller gathers no more than the sequence.
    unfoldable pub paged_body : Row a → (ℕ → ℕ) → ℕ → ℕ → ℕ → State a → State a
    paged_body q block_table start_pos candidate_offset i st =
        let gather_idx = candidate_offset + i in
        visit a head_dim block_d scale q (paged_row block_table (start_pos + gather_idx)) st

    unfoldable pub accumulate_paged : Row a → (ℕ → ℕ) → ℕ → ℕ → ℕ → ℕ → State a → State a
    accumulate_paged q block_table seq_len gather_len num_candidates candidate_offset st =
        let loaded = record st { acc = mask_row a head_dim st.acc } in
        let start_pos = seq_len - gather_len in
        store_state a head_dim block_d st (
          for_range (local_eff num_candidates gather_len candidate_offset) 0
            (paged_body q block_table start_pos candidate_offset) loaded)

    -- The multihead forms: one program, for a block of heads.
    unfoldable pub slots_multihead_body : (ℕ → Row a) → (ℕ → ℤ) → ℕ → (ℕ → State a) → ℕ → State a
    slots_multihead_body queries slot_ids i lanes =
        let slot_id = slot_ids i in
        if is_nonneg slot_id
        then (λ lane.
            visit a head_dim block_d scale (queries lane) (slot_row (row_of slot_id)) (lanes lane))
        else lanes

    unfoldable pub accumulate_global_slots_multihead :
        ℕ → ℕ → (ℕ → Row a) → (ℕ → ℤ) → ℕ → ℕ → ℕ → ℕ → (ℕ → State a) → ℕ → State a
    accumulate_global_slots_multihead head_block num_heads q slot_ids valid_len num_candidates
          candidate_offset head_block_idx sts =
        store_heads a head_dim block_d scale num_heads sts head_block head_block_idx (
          for_range (local_eff num_candidates valid_len candidate_offset) 0
            (slots_multihead_body
              (load_queries a head_dim block_d scale num_heads q head_block head_block_idx)
              slot_ids)
            (load_heads a head_dim block_d scale num_heads sts head_block head_block_idx))

    unfoldable pub paged_multihead_body :
        (ℕ → Row a) → (ℕ → ℕ) → ℕ → ℕ → ℕ → (ℕ → State a) → ℕ → State a
    paged_multihead_body queries block_table start_pos candidate_offset i lanes lane =
        let gather_idx = candidate_offset + i in
        visit a head_dim block_d scale (queries lane)
          (paged_row block_table (start_pos + gather_idx)) (lanes lane)

    unfoldable pub accumulate_paged_multihead :
        ℕ → ℕ → (ℕ → Row a) → (ℕ → ℕ) → ℕ → ℕ → ℕ → ℕ → ℕ → (ℕ → State a) → ℕ → State a
    accumulate_paged_multihead head_block num_heads q block_table seq_len gather_len num_candidates
          candidate_offset head_block_idx sts =
        store_heads a head_dim block_d scale num_heads sts head_block head_block_idx (
          for_range (local_eff num_candidates gather_len candidate_offset) 0
            (paged_multihead_body
              (load_queries a head_dim block_d scale num_heads q head_block head_block_idx)
              block_table (seq_len - gather_len) candidate_offset)
            (load_heads a head_dim block_d scale num_heads sts head_block head_block_idx))

    -- `tl.load(sink_ptr + head_offsets, mask=head_mask, other=-inf)`
    unfoldable pub load_sink : ℕ → (ℕ → Logit a.S) → ℕ → ℕ → ℕ → Logit a.S
    load_sink num_heads sink head_block head_block_idx lane =
        let head = head_block_idx * head_block + lane in
        if ltb head num_heads then sink head else neg_inf

    -- From the sums to `final`, for one lane.
    unfoldable pub finish_lane : State a → Logit a.S → Option (Row a)
    unfolding is_finite maximum exp_diff
    finish_lane st sink = do
      let has_tokens = a.pos st.denom
      let has_sink = is_finite a sink
      let valid_max = if has_tokens then st.max_score else neg_inf
      let valid_sink = if has_sink then sink else neg_inf
      let merge_max = maximum a valid_max valid_sink
      let has_any = has_tokens || has_sink
      let safe_merge_max = if has_any then merge_max else fin a.zero_S
      let safe_running_max = if has_tokens then st.max_score else safe_merge_max
      let safe_sink = if has_sink then sink else safe_merge_max
      subset_scale ←
          if has_tokens then exp_diff a safe_running_max safe_merge_max else some a.zero_W
      sink_weight ← if has_sink then exp_diff a safe_sink safe_merge_max else some a.zero_W
      let total_weight = a.add_W (a.mul_W st.denom subset_scale) sink_weight
      let inv_total = if a.pos total_weight then a.div_W a.one_W total_weight else a.zero_W
      some (λ d. a.act inv_total (a.act subset_scale (st.acc d)))

    -- The stores of the outputs: by head, the row in memory, or none for a NaN.
    unfoldable pub store_outputs :
        ℕ → (ℕ → Row a) → ℕ → ℕ → (ℕ → Option (Row a)) → ℕ → Option (Row a)
    store_outputs num_heads outs head_block head_block_idx finals head =
        let first = head_block_idx * head_block in
        if leb first head && ltb head (first + head_block) && ltb head num_heads
        then (finals (head - first) >>= λ final.
            some (λ d. if ltb d head_dim && ltb d block_d then final d else outs head d))
        else some (outs head)

    unfoldable pub paged_with_sink :
        ℕ
        → ℕ
        → (ℕ → Row a)
        → (ℕ → ℕ)
        → ℕ
        → ℕ
        → ℕ
        → ℕ
        → (ℕ → Logit a.S)
        → ℕ
        → (ℕ → Row a)
        → ℕ
        → Option (Row a)
    unfolding load_sink finish_lane
    paged_with_sink head_block num_heads q block_table seq_len gather_len num_candidates
          candidate_offset sink head_block_idx outs =
        let lanes =
          for_range (local_eff num_candidates gather_len candidate_offset) 0
            (paged_multihead_body
              (load_queries a head_dim block_d scale num_heads q head_block head_block_idx)
              block_table (seq_len - gather_len) candidate_offset)
            (λ lane. blank a) in
        store_outputs num_heads outs head_block head_block_idx (λ lane.
          finish_lane (lanes lane) (load_sink num_heads sink head_block head_block_idx lane))
