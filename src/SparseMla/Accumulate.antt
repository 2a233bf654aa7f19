-- ===== src/SparseMla/Accumulate.antt =====
-- The accumulating kernels of kernels/sparse_mla_kernels.py that read gathered rows
-- (`_accumulate_gathered_attention_chunk_kernel`) or rows named by an index
-- (`_accumulate_indexed_attention_chunk_kernel` and its multihead form), for one token, and the choice
-- between the latter. An index is an int32; -1 pads. Tensors are functions of their coordinates.
pub mod Loop
pub mod Chunk
pub mod Lanes
pub mod Heads
pub mod Entry
use glm_5_2_gb.Common.{
  ℕ, zero, suc, ◌+◌, ◌-◌, ◌*◌, ◌/◌, ◌<◌, ◌≤◌, min, Bool, true, false, ◌&&◌, Option, none, some, ltb,
  leb, if◌then◌else◌, for_range,
}
use glm_5_2_gb.Common.Int.{ℤ, pos, negsuc}
use glm_5_2_gb.Float.{Arith}
use glm_5_2_gb.Softmax.{Logit, neg_inf, State, Row, step}

-- `x >= 0`
unfoldable pub is_nonneg : ℤ → Bool
is_nonneg (pos n) = true
is_nonneg (negsuc n) = false

-- `x < n`
unfoldable pub is_below : ℤ → ℕ → Bool
is_below (pos m) n = ltb m n
is_below (negsuc m) n = true

-- The row that an index names; a negative index is never used.
unfoldable pub row_of : ℤ → ℕ
row_of (pos n) = n
row_of (negsuc n) = 0

-- `min(num_candidates, max(valid_len - candidate_offset, 0))`
unfoldable pub local_eff : ℕ → ℕ → ℕ → ℕ
local_eff num_candidates valid_len candidate_offset =
    min num_candidates (valid_len - candidate_offset)

-- `triton.cdiv`
unfoldable pub cdiv : ℕ → ℕ → ℕ
cdiv n d = (n + d - 1) / d

module _ (a : Arith) where
  open a use {S, W, E, add_S, mul_S, zero_S, zero_E, zero_W, prod}

  -- A load with the mask `offsets < head_dim` and `other=0.0`.
  unfoldable pub mask_row : ℕ → Row a → Row a
  mask_row head_dim r d = if ltb d head_dim then r d else zero_E

  -- `tl.sum(q * kv)` over a block of dimensions
  unfoldable pub dot : ℕ → Row a → Row a → S
  dot zero q kv = zero_S
  dot (suc n) q kv = add_S (dot n q kv) (prod (q n) (kv n))

  -- `tl.store` of the accumulator with the mask `offsets < head_dim`, by a block of `block_d`.
  unfoldable pub store_state : ℕ → ℕ → State a → State a → State a
  store_state head_dim block_d old new = record new {
    acc = λ d. if ltb d head_dim && ltb d block_d then new.acc d else old.acc d;
  }

  module _ (head_dim block_d : ℕ) (scale : S) where
    -- One iteration on a valid candidate: load its row, score it, update the state.
    unfoldable pub visit : Row a → Row a → State a → State a
    unfolding mask_row
    visit q row st =
        let kv = mask_row head_dim row in
        step a st (mul_S (dot block_d (mask_row head_dim q) kv) scale) kv

    unfoldable pub gathered_body : Row a → (ℕ → Row a) → Option (ℕ → ℤ) → ℕ → State a → State a
    unfolding is_nonneg
    gathered_body q kv none i st = visit q (kv i) st
    gathered_body q kv (some slot_ids) i st =
        if is_nonneg (slot_ids i) then visit q (kv i) st else st

    unfoldable pub accumulate_gathered_attention_chunk :
        Row a → (ℕ → Row a) → Option (ℕ → ℤ) → ℕ → ℕ → ℕ → State a → State a
    unfolding local_eff
    accumulate_gathered_attention_chunk q kv slot_ids valid_len num_candidates candidate_offset st =
        let loaded = record st { acc = mask_row head_dim st.acc } in
        store_state head_dim block_d st (
          for_range (local_eff num_candidates valid_len candidate_offset) 0
            (gathered_body q kv slot_ids) loaded)

    unfoldable pub indexed_body : ℕ → Row a → (ℕ → Row a) → (ℕ → ℤ) → ℕ → State a → State a
    unfolding is_nonneg is_below row_of
    indexed_body num_kv_rows q kv_flat indices i st =
        let kv_index = indices i in
        if is_nonneg kv_index && is_below kv_index num_kv_rows
        then visit q (kv_flat (row_of kv_index)) st
        else st

    unfoldable pub accumulate_indexed_attention_chunk :
        ℕ → Row a → (ℕ → Row a) → (ℕ → ℤ) → ℕ → ℕ → ℕ → State a → State a
    unfolding local_eff
    accumulate_indexed_attention_chunk num_kv_rows q kv_flat indices valid_len num_candidates
          candidate_offset st =
        let loaded = record st { acc = mask_row head_dim st.acc } in
        store_state head_dim block_d st (
          for_range (local_eff num_candidates valid_len candidate_offset) 0
            (indexed_body num_kv_rows q kv_flat indices) loaded)

    -- `_accumulate_indexed_attention_chunk_multihead_kernel`: one program, for the heads
    -- `head_block_idx * head_block`, ..., of which those below `num_heads` are real.
    unfoldable pub load_heads : ℕ → (ℕ → State a) → ℕ → ℕ → ℕ → State a
    unfolding mask_row
    load_heads num_heads sts head_block head_block_idx lane =
        let head = head_block_idx * head_block + lane in
        if ltb head num_heads
        then record (sts head) { acc = mask_row head_dim (sts head).acc }
        else record { max_score = neg_inf; denom = zero_W; acc = λ d. zero_E }

    unfoldable pub load_queries : ℕ → (ℕ → Row a) → ℕ → ℕ → ℕ → Row a
    load_queries num_heads q head_block head_block_idx lane =
        let head = head_block_idx * head_block + lane in
        if ltb head num_heads then q head else (λ d. zero_E)

    unfoldable pub multihead_body :
        ℕ → (ℕ → Row a) → (ℕ → Row a) → (ℕ → ℤ) → ℕ → (ℕ → State a) → ℕ → State a
    unfolding is_nonneg is_below row_of
    multihead_body num_kv_rows queries kv_flat indices i lanes =
        let kv_index = indices i in
        if is_nonneg kv_index && is_below kv_index num_kv_rows
        then (λ lane. visit (queries lane) (kv_flat (row_of kv_index)) (lanes lane))
        else lanes

    unfoldable pub store_heads : ℕ → (ℕ → State a) → ℕ → ℕ → (ℕ → State a) → ℕ → State a
    store_heads num_heads sts head_block head_block_idx lanes head =
        let first = head_block_idx * head_block in
        if leb first head && ltb head (first + head_block) && ltb head num_heads
        then store_state head_dim block_d (sts head) (lanes (head - first))
        else sts head

    unfoldable pub accumulate_indexed_multihead :
        ℕ
        → ℕ
        → ℕ
        → (ℕ → Row a)
        → (ℕ → Row a)
        → (ℕ → ℤ)
        → ℕ
        → ℕ
        → ℕ
        → ℕ
        → (ℕ → State a)
        → ℕ
        → State a
    unfolding local_eff load_heads load_queries store_heads
    accumulate_indexed_multihead head_block num_heads num_kv_rows q kv_flat indices valid_len
          num_candidates candidate_offset head_block_idx sts =
        store_heads num_heads sts head_block head_block_idx (
          for_range (local_eff num_candidates valid_len candidate_offset) 0
            (multihead_body num_kv_rows (load_queries num_heads q head_block head_block_idx) kv_flat
              indices)
            (load_heads num_heads sts head_block head_block_idx))

    -- `_PREFILL_INDEXED_HEAD_BLOCK`
    abbrev pub prefill_indexed_head_block : ℕ
    prefill_indexed_head_block = 8

    -- `accumulate_indexed_sparse_mla_attention_chunk`, for one token and all its heads.
    unfoldable pub accumulate_indexed_chunk :
        ℕ → ℕ → (ℕ → Row a) → (ℕ → Row a) → (ℕ → ℤ) → ℕ → ℕ → ℕ → (ℕ → State a) → ℕ → State a
    unfolding cdiv
    accumulate_indexed_chunk num_heads num_kv_rows q kv_flat indices valid_len num_candidates
          candidate_offset sts =
        if leb prefill_indexed_head_block num_heads
        then for_range (cdiv num_heads prefill_indexed_head_block) 0
            (accumulate_indexed_multihead prefill_indexed_head_block num_heads num_kv_rows q kv_flat
              indices valid_len num_candidates candidate_offset)
            sts
        else (λ head.
            if ltb head num_heads
            then accumulate_indexed_attention_chunk num_kv_rows (q head) kv_flat indices valid_len
                num_candidates candidate_offset (sts head)
            else sts head)
