-- ===== src/SparseMla/Scores.antt =====
-- The kernels of kernels/sparse_mla_kernels.py that finish materialized scores with a sink, for one
-- query token, the entry points that choose among them and that compute the scores, and the mask of
-- the valid candidates. The lanes of a block that are no head store nothing, and are left out.
pub mod Blocks
pub mod Online
pub mod Finished
pub mod Combined
use glm_5_2_gb.Common.{
  ℕ, ◌+◌, ◌-◌, ◌*◌, min, Bool, true, false, not, ◌&&◌, ◌||◌, Option, none, some, ◌==◌, ◌>>=◌, ◌>>◌,
  guard, ltb, leb, if◌then◌else◌, for_range, ◌≡◌,
}
use glm_5_2_gb.Common.Int.{ℤ, negsuc}
use glm_5_2_gb.Float.{Arith}
use glm_5_2_gb.Softmax.{Logit, neg_inf, fin, State, Row, step}
use glm_5_2_gb.SparseMla.Accumulate.{cdiv, dot, mask_row, is_nonneg}
use glm_5_2_gb.SparseMla.Finish.{maximum, exp_or}
use glm_5_2_gb.SparseMla.D512.Stores.{tile_store, grid}
use glm_5_2_gb.Sm12x.KvCache.{tile_max, tile_sum, tile_dot}

pub record FinishOptions : Type 0 where
  pub num_heads : Option ℕ
  pub head_block_size : ℕ
  pub value_block_size : Option ℕ
  pub candidate_block_size : Option ℕ

-- How many heads the tensors `scores`, `output` and `attn_sink` have.
pub record HeadCounts : Type 0 where
  pub of_scores : ℕ
  pub of_output : ℕ
  pub of_sink : ℕ

unfoldable pub is_value_block : Option ℕ → Bool
is_value_block none = true
is_value_block (some v) = v == 64 || v == 128 || v == 256 || v == 512

unfoldable pub is_candidate_block : Option ℕ → Bool
is_candidate_block none = true
is_candidate_block (some k) = k == 16 || k == 32 || k == 64 || k == 128

unfoldable pub active_heads : FinishOptions → HeadCounts → ℕ
active_heads o counts = elim o.num_heads [ none ↦ counts.of_output | some n ↦ n ]

-- The assertions on the options and the counts
unfoldable pub options_ok : FinishOptions → HeadCounts → Bool
unfolding is_value_block is_candidate_block active_heads
options_ok o counts =
    (o.head_block_size == 1 || o.head_block_size == 2 || o.head_block_size == 4)
    && is_value_block o.value_block_size
    && is_candidate_block o.candidate_block_size
    && leb (active_heads o counts) counts.of_scores
    && leb (active_heads o counts) counts.of_output
    && leb (active_heads o counts) counts.of_sink

-- `_smallest_block_d_covering`
unfoldable pub smallest_block_d_covering : ℕ → ℕ
smallest_block_d_covering hd =
    if leb hd 64 then 64 else if leb hd 128 then 128 else if leb hd 256 then 256 else 512

-- `_build_combined_decode_valid_mask_kernel`: the lane of one candidate.
unfoldable pub combined_valid : (ℕ → ℤ) → ℕ → ℕ → ℕ → ℕ → Bool
unfolding is_nonneg
combined_valid slot_ids topk_len swa_len num_compressed_candidates offset =
    let is_compressed = ltb offset num_compressed_candidates in
    let swa_offset = offset - num_compressed_candidates in
    let slot_id = if is_compressed then slot_ids offset else negsuc 0 in
    let valid_compressed = is_compressed && ltb offset topk_len && is_nonneg slot_id in
    let valid_swa = not is_compressed && ltb swa_offset swa_len in valid_compressed || valid_swa

-- `build_combined_sparse_mla_decode_valid_mask`, where `next_power_of_2` is vLLM's.
unfoldable pub build_valid_mask : (ℕ → ℕ) → (ℕ → ℤ) → ℕ → ℕ → ℕ → ℕ → (ℕ → Bool) → Option (ℕ → Bool)
unfolding combined_valid
build_valid_mask next_power_of_2 slot_ids topk_len swa_len num_compressed_candidates num_candidates
      output =
    do
      guard (leb num_compressed_candidates num_candidates)
      some (λ offset.
          if ltb offset (next_power_of_2 num_candidates) && ltb offset num_candidates
          then combined_valid slot_ids topk_len swa_len num_compressed_candidates offset
          else output offset)

module _ (a : Arith) (nan : a.W) where
  open a use {S, W, E, mul_S, zero_W, one_W, add_W, zero_E, add_E, act, quot}

  module _ (head_dim num_candidates : ℕ) (scores : ℕ → ℕ → S) (kv : ℕ → Row a)
      (valid_tokens : ℕ → Bool) (attn_sink : ℕ → Logit S) where
    -- The sink is the first maximum, with a weight of 1 and no value.
    unfoldable pub sink_state : ℕ → State a
    sink_state head = record { max_score = attn_sink head; denom = one_W; acc = λ d. zero_E }

    unfoldable pub online_body : ℕ → ℕ → State a → State a
    unfolding mask_row
    online_body head candidate_idx st =
        if valid_tokens candidate_idx
        then step a st (scores head candidate_idx) (mask_row a head_dim (kv candidate_idx))
        else st

    unfoldable pub online_output : ℕ → ℕ → E → E
    unfolding sink_state online_body
    online_output head d old =
        let st = for_range num_candidates 0 (online_body head) (sink_state head) in
        quot (st.acc d) st.denom

    -- `_finish_materialized_scores_with_sink_kernel`
    unfoldable pub finish_scores : ℕ → ℕ → ℕ → ℕ → ℕ → (ℕ → Row a) → ℕ → Row a
    unfolding tile_store online_output
    finish_scores num_heads head_block block_d head_block_idx dim_block output =
        tile_store head_block num_heads block_d head_dim online_output head_block_idx dim_block
          output

    -- `_finish_materialized_scores_with_sink_value_block_kernel`
    unfoldable pub finish_scores_by_values : ℕ → ℕ → ℕ → ℕ → (ℕ → Row a) → ℕ → Row a
    unfolding tile_store online_output
    finish_scores_by_values num_heads block_d head_idx dim_block_idx output =
        tile_store 1 num_heads block_d head_dim online_output head_idx dim_block_idx output

    -- `_finish_materialized_scores_with_sink_candidate_block_kernel`: the scores of a block, their
    -- maximum, the denominator and a value.
    unfoldable pub block_valid : ℕ → Bool
    block_valid candidate =
        let candidate_mask = ltb candidate num_candidates in
        let is_valid = if candidate_mask then valid_tokens candidate else false in
        candidate_mask && is_valid

    unfoldable pub block_score : ℕ → ℕ → Logit S
    unfolding block_valid
    block_score head candidate =
        if block_valid candidate then fin (scores head candidate) else neg_inf

    unfoldable pub block_max : ℕ → ℕ → Logit S
    unfolding block_score maximum cdiv
    block_max block_k head =
        for_range (cdiv num_candidates block_k) 0
          (λ i max_score. maximum a max_score (tile_max a block_k (i * block_k) (block_score head)))
          (attn_sink head)

    unfoldable pub block_weight : ℕ → ℕ → ℕ → W
    unfolding block_score block_max exp_or
    block_weight block_k head candidate =
        exp_or a nan (block_score head candidate) (block_max block_k head)

    unfoldable pub block_denom : ℕ → ℕ → W
    unfolding block_weight exp_or cdiv
    block_denom block_k head =
        for_range (cdiv num_candidates block_k) 0
          (λ i denom. add_W denom (tile_sum a block_k (i * block_k) (block_weight block_k head)))
          (exp_or a nan (attn_sink head) (block_max block_k head))

    unfoldable pub block_output : ℕ → ℕ → ℕ → E → E
    unfolding block_weight block_denom block_valid cdiv
    block_output block_k head d old =
        let values = λ (candidate : ℕ).
          if block_valid candidate && ltb d head_dim then kv candidate d else zero_E in
        let acc =
          for_range (cdiv num_candidates block_k) 0
            (λ i acc'.
              add_E acc' (tile_dot a block_k (i * block_k) (block_weight block_k head) values))
            zero_E in
        quot acc (block_denom block_k head)

    unfoldable pub finish_scores_by_candidates : ℕ → ℕ → ℕ → ℕ → ℕ → (ℕ → Row a) → ℕ → Row a
    unfolding tile_store block_output
    finish_scores_by_candidates num_heads block_k block_d head_idx dim_block_idx output =
        tile_store 1 num_heads block_d head_dim (block_output block_k) head_idx dim_block_idx output

    -- `finish_materialized_sparse_mla_scores_with_sink`: the launch that the options choose.
    unfoldable pub launch_by_candidates : Option ℕ → ℕ → ℕ → (ℕ → Row a) → ℕ → Row a
    unfolding smallest_block_d_covering grid finish_scores_by_candidates cdiv
    launch_by_candidates value_block_size heads block_k output =
        let target_block_d = smallest_block_d_covering head_dim in
        let block_d : ℕ = elim value_block_size [
          | none ↦ target_block_d
          | some v ↦ min v target_block_d
        ] in
        grid heads (cdiv head_dim block_d) (finish_scores_by_candidates heads block_k block_d)
          output

    unfoldable pub launch_by_heads : (ℕ → ℕ) → ℕ → ℕ → (ℕ → Row a) → ℕ → Row a
    unfolding grid finish_scores cdiv
    launch_by_heads next_power_of_2 heads head_block output =
        let block_d = min 1024 (next_power_of_2 head_dim) in
        grid (cdiv heads head_block) 1 (finish_scores heads head_block block_d) output

    unfoldable pub launch : (ℕ → ℕ) → FinishOptions → ℕ → (ℕ → Row a) → ℕ → Row a
    unfolding launch_by_candidates launch_by_heads grid finish_scores_by_values cdiv
    launch next_power_of_2 o heads output = elim o.candidate_block_size [
      | some block_k ↦ launch_by_candidates o.value_block_size heads block_k output
      | none ↦ elim o.value_block_size [
        | none ↦ launch_by_heads next_power_of_2 heads o.head_block_size output
        | some v ↦
            if ltb v head_dim
            then grid heads (cdiv head_dim v) (finish_scores_by_values heads v) output
            else launch_by_heads next_power_of_2 heads o.head_block_size output
      ]
    ]

    unfoldable pub finish_materialized :
        (ℕ → ℕ) → FinishOptions → HeadCounts → (ℕ → Row a) → Option (ℕ → Row a)
    unfolding options_ok active_heads launch
    finish_materialized next_power_of_2 o counts output = do
      guard (options_ok o counts)
      let heads = active_heads o counts
      let output' = launch next_power_of_2 o heads output
      some
          (λ head d. if leb heads head && ltb head counts.of_output then zero_E else output' head d)

  -- `matmul_sparse_mla_attention_with_sink`, by `torch.bmm` of the queries and the rows; the
  -- heads that `of_scores` counts are here the query's.
  unfoldable pub matmul_attention :
      ℕ
      → ℕ
      → S
      → (ℕ → Row a)
      → (ℕ → Row a)
      → (ℕ → Bool)
      → (ℕ → Logit S)
      → (ℕ → ℕ)
      → FinishOptions
      → HeadCounts
      → (ℕ → Row a)
      → Option (ℕ → Row a)
  unfolding active_heads finish_materialized
  matmul_attention head_dim num_candidates scale q kv valid_tokens attn_sink next_power_of_2 o
        counts output =
      do
        let heads = active_heads o counts
        guard (leb heads counts.of_scores && leb heads counts.of_output && leb heads counts.of_sink)
        let score_buffer = λ (head : ℕ) (cand : ℕ). mul_S (dot a head_dim (q head) (kv cand)) scale
        let o' = record o { num_heads = some heads }
        let counts' = record counts { of_scores = heads }
        finish_materialized head_dim num_candidates score_buffer kv valid_tokens attn_sink
            next_power_of_2 o' counts' output
