-- ===== src/SparseMla/D512.antt =====
-- The kernels of kernels/sparse_mla_kernels.py for a head dimension of 512, for one query token: the
-- scores, their maximum and denominator, and the values in three launches
-- (`accumulate_indexed_d512_split_sparse_mla_attention`), and the same by chunks of candidates whose
-- states are merged (`accumulate_indexed_d512_chunked_sparse_mla_attention`). A failing assertion gives
-- `none`. `nan` stands for a weight that is a NaN or infinite: what is proved holds whatever it is.
pub mod Stores
pub mod Named
pub mod Tiles
pub mod Split
pub mod Merge
pub mod Chunks
use glm_5_2_gb.Common.{
  ℕ, ◌+◌, ◌-◌, ◌*◌, min, Bool, true, false, ◌&&◌, ◌||◌, Option, none, some, ◌==◌, ◌>>=◌, ◌>>◌,
  guard, ltb, leb, if◌then◌else◌, for_range, ◌≡◌,
}
use glm_5_2_gb.Common.Int.{ℤ}
use glm_5_2_gb.Float.{Arith}
use glm_5_2_gb.Softmax.{Logit, neg_inf, fin, State, Row, blank}
use glm_5_2_gb.SparseMla.Accumulate.{row_of, cdiv, dot}
use glm_5_2_gb.SparseMla.Finish.{is_finite, maximum, exp_or}
use glm_5_2_gb.SparseMla.D512.Stores.{tile_store, grid}
use glm_5_2_gb.Sm12x.KvCache.{is_slot, tile_slot, tile_max, tile_sum, tile_dot}

pub record BlockSizes : Type 0 where
  pub head_block_size : ℕ
  pub candidate_block_size : ℕ
  pub value_block_size : ℕ

-- `head_block_size in (8, 16, 32)` and the assertions after it
unfoldable pub sizes_ok : BlockSizes → Bool
sizes_ok b =
    (b.head_block_size == 8 || b.head_block_size == 16 || b.head_block_size == 32)
    && (b.candidate_block_size == 32
        || b.candidate_block_size == 64
        || b.candidate_block_size == 128)
    && (b.value_block_size == 32 || b.value_block_size == 64 || b.value_block_size == 128)

abbrev pub max_candidates : ℕ
max_candidates = 1152

-- The tensor `scores`, by head and candidate, and those of the state, by head.
pub record Buffers (a : Arith) : Type 0 where
  pub scores : ℕ → ℕ → Logit a.S
  pub states : ℕ → State a

module _ (a : Arith) (nan : a.W) where
  open a use {S, W, E, mul_S, zero_S, zero_W, add_W, mul_W, zero_E, add_E, act}

  module _ (head_dim num_heads num_kv_rows : ℕ) (scale : S) (q kv_flat : ℕ → Row a) where
    module _ (indices : ℕ → ℤ) (num_candidates valid_len : ℕ) where
      -- The row of a candidate, with the mask `valid_kv` and `other=0.0`.
      unfoldable pub loaded_row : ℕ → Row a
      unfolding is_slot tile_slot row_of
      loaded_row cand d =
          let kv_index = tile_slot (min valid_len num_candidates) indices cand in
          if is_slot num_kv_rows kv_index then kv_flat (row_of kv_index) d else zero_E

      -- `tl.dot(q, kv) * scale`
      unfoldable pub new_score : ℕ → ℕ → Logit S → Logit S
      unfolding loaded_row
      new_score head cand old =
          let q_row = if ltb head num_heads then q head else (λ d. zero_E) in
          fin (mul_S (dot a head_dim q_row (loaded_row cand)) scale)

      -- `_indexed_d512_split_score_kernel`
      unfoldable pub split_score : ℕ → ℕ → ℕ → ℕ → (ℕ → ℕ → Logit S) → ℕ → ℕ → Logit S
      unfolding tile_store new_score
      split_score head_block block_c head_block_idx candidate_block scores =
          let bound = min valid_len num_candidates in
          if leb bound (candidate_block * block_c)
          then scores
          else tile_store head_block num_heads block_c bound new_score head_block_idx
              candidate_block scores

      -- `_indexed_d512_split_stats_kernel`: its maximum and denominator for one head.
      unfoldable pub masked_scores : (ℕ → Logit S) → ℕ → Logit S
      masked_scores row cand = if ltb cand (min valid_len num_candidates) then row cand else neg_inf

      unfoldable pub safe_max : Logit S → Logit S
      safe_max running_max = if ltb 0 valid_len then running_max else fin zero_S

      unfoldable pub score_weight : (ℕ → Logit S) → Logit S → ℕ → W
      unfolding exp_or masked_scores safe_max
      score_weight row running_max cand =
          if ltb cand (min valid_len num_candidates)
          then exp_or a nan (masked_scores row cand) (safe_max running_max)
          else zero_W

      unfoldable pub split_stats : ℕ → (ℕ → ℕ → Logit S) → (ℕ → State a) → ℕ → State a
      unfolding masked_scores score_weight
      split_stats block_c scores sts head =
          let running_max = tile_max a block_c 0 (masked_scores (scores head)) in
          if ltb head num_heads
          then record (sts head) {
            max_score = running_max;
            denom = tile_sum a block_c 0 (score_weight (scores head) running_max);
          }
          else sts head

      -- `_indexed_d512_split_value_kernel`: its accumulator for one head and dimension.
      unfoldable pub new_value : ℕ → (ℕ → ℕ → Logit S) → (ℕ → State a) → ℕ → ℕ → E → E
      unfolding loaded_row score_weight
      new_value block_c scores sts head d old =
          let bound = min valid_len num_candidates in
          let max_score = if ltb head num_heads then (sts head).max_score else fin zero_S in
          let row = λ (cand : ℕ). if ltb head num_heads then scores head cand else neg_inf in
          let values = λ (cand : ℕ). if ltb d head_dim then loaded_row cand d else zero_E in
          for_range (cdiv num_candidates block_c) 0
            (λ i acc.
              if ltb (i * block_c) bound
              then add_E acc (tile_dot a block_c (i * block_c) (score_weight row max_score) values)
              else acc)
            zero_E

      unfoldable pub split_value :
          ℕ → ℕ → ℕ → (ℕ → ℕ → Logit S) → (ℕ → State a) → ℕ → ℕ → (ℕ → Row a) → ℕ → Row a
      unfolding tile_store new_value
      split_value head_block block_c block_d scores sts head_block_idx dim_block acc =
          tile_store head_block num_heads block_d head_dim (new_value block_c scores sts)
            head_block_idx dim_block acc

      -- `accumulate_indexed_d512_split_sparse_mla_attention`, where `next_power_of_2` is vLLM's.
      unfoldable pub split_launches : (ℕ → ℕ) → BlockSizes → Buffers a → Buffers a
      unfolding grid split_score split_stats split_value cdiv
      split_launches next_power_of_2 b bufs =
          let head_blocks = cdiv num_heads b.head_block_size in
          let scores =
            grid head_blocks (cdiv num_candidates b.candidate_block_size)
              (split_score b.head_block_size b.candidate_block_size) bufs.scores in
          let sts = split_stats (next_power_of_2 num_candidates) scores bufs.states in
          let acc =
            grid head_blocks (cdiv head_dim b.value_block_size)
              (split_value b.head_block_size b.candidate_block_size b.value_block_size scores sts)
              (λ head. (sts head).acc) in
          record { scores = scores; states = λ head. record (sts head) { acc = acc head } }

      unfoldable pub accumulate_split : (ℕ → ℕ) → BlockSizes → Buffers a → Option (Buffers a)
      unfolding sizes_ok split_launches
      accumulate_split next_power_of_2 b bufs = do
        guard (head_dim == 512)
        guard (sizes_ok b)
        guard (leb num_candidates max_candidates)
        some (split_launches next_power_of_2 b bufs)

    -- `tl.where(x != -inf, tl.exp(x - next_max), 0.0)`
    unfoldable pub merge_scale : Logit S → Logit S → W
    unfolding exp_or is_finite
    merge_scale x next_max = if is_finite a x then exp_or a nan x next_max else zero_W

    -- `_indexed_d512_chunked_merge_acc_kernel`: what it stores for one head and dimension.
    unfoldable pub merged_value : (ℕ → State a) → (ℕ → State a) → ℕ → ℕ → E → E
    unfolding merge_scale maximum
    merged_value running chunk head d old =
        let running_max = if ltb head num_heads then (running head).max_score else neg_inf in
        let chunk_max = if ltb head num_heads then (chunk head).max_score else neg_inf in
        let next_max = maximum a running_max chunk_max in
        let inside = ltb head num_heads && ltb d head_dim in
        add_E (act (merge_scale running_max next_max) (if inside then old else zero_E))
          (act (merge_scale chunk_max next_max) (if inside then (chunk head).acc d else zero_E))

    unfoldable pub chunked_merge_acc :
        ℕ → ℕ → (ℕ → State a) → (ℕ → State a) → ℕ → ℕ → (ℕ → Row a) → ℕ → Row a
    unfolding tile_store merged_value
    chunked_merge_acc head_block block_d running chunk head_block_idx dim_block acc =
        tile_store head_block num_heads block_d head_dim (merged_value running chunk) head_block_idx
          dim_block acc

    -- `_indexed_d512_chunked_merge_state_kernel`
    unfoldable pub chunked_merge_state : (ℕ → State a) → (ℕ → State a) → ℕ → State a
    unfolding merge_scale maximum
    chunked_merge_state running chunk head =
        let running_max = (running head).max_score in
        let chunk_max = (chunk head).max_score in
        let next_max = maximum a running_max chunk_max in
        if ltb head num_heads
        then record (running head) {
          max_score = next_max;
          denom =
              add_W (mul_W (running head).denom (merge_scale running_max next_max))
                (mul_W (chunk head).denom (merge_scale chunk_max next_max));
        }
        else running head

    -- The two merging launches, the accumulator's first.
    unfoldable pub merge_chunk : BlockSizes → (ℕ → State a) → (ℕ → State a) → ℕ → State a
    unfolding grid chunked_merge_acc chunked_merge_state cdiv
    merge_chunk b running chunk =
        let acc =
          grid (cdiv num_heads b.head_block_size) (cdiv head_dim b.value_block_size)
            (chunked_merge_acc b.head_block_size b.value_block_size running chunk)
            (λ head. (running head).acc) in
        chunked_merge_state (λ head. record (running head) { acc = acc head }) chunk

    -- `accumulate_indexed_d512_chunked_sparse_mla_attention`: one round of its loop, on the states of
    -- the result and on the buffers of a chunk.
    unfoldable pub chunk_round :
        (ℕ → ℕ)
        → BlockSizes
        → (ℕ → ℤ)
        → ℕ
        → ℕ
        → ℕ
        → ℕ
        → (ℕ → State a) × Buffers a
        → Option ((ℕ → State a) × Buffers a)
    unfolding accumulate_split merge_chunk
    chunk_round next_power_of_2 b indices num_candidates valid_len chunk_size i (running, bufs) = do
      let candidate_start = i * chunk_size
      let candidate_end = min (candidate_start + chunk_size) num_candidates
      let chunk_candidates = candidate_end - candidate_start
      let chunk_len = min (valid_len - candidate_start) chunk_candidates
      bufs' ←
          accumulate_split (λ c. indices (candidate_start + c)) chunk_candidates chunk_len
            next_power_of_2 b bufs
      some (merge_chunk b running bufs'.states, bufs')

    unfoldable pub accumulate_chunked :
        (ℕ → ℕ)
        → BlockSizes
        → (ℕ → ℤ)
        → ℕ
        → ℕ
        → ℕ
        → (ℕ → State a)
        → Buffers a
        → Option ((ℕ → State a) × Buffers a)
    unfolding sizes_ok chunk_round cdiv
    accumulate_chunked next_power_of_2 b indices num_candidates valid_len chunk_size running bufs =
        do
          guard (head_dim == 512)
          guard (ltb 0 chunk_size && leb chunk_size max_candidates)
          guard (sizes_ok b)
          let cleared = λ (head : ℕ). if ltb head num_heads then blank a else running head
          for_range (cdiv num_candidates chunk_size) 0
              (λ i r.
                r >>= chunk_round next_power_of_2 b indices num_candidates valid_len chunk_size i)
              (some (cleared, bufs))
