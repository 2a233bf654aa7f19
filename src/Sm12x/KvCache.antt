-- ===== src/Sm12x/KvCache.antt =====
-- The kernels of the FP8 sparse decode of kernels/sm12x_sparse_mla_attn.py, for one query token: the
-- fused kernel, by tiles, and the two that materialize the rows. A cache is a function from an address
-- to a byte. A bf16 or fp8 cast rounds nothing here, and Triton's casts of bytes are a parameter.
pub mod Maximum
pub mod Candidates
pub mod Sums
pub mod Tile
pub mod Fused
pub mod Grid
pub mod Materialized
use glm_5_2_gb.Common.{
  ℕ, zero, suc, ◌+◌, ◌-◌, ◌*◌, ◌/◌, ◌%◌, ◌^◌, min, max, Bool, true, false, ◌&&◌, Option, none, some,
  ltb, leb, if◌then◌else◌, for_range,
}
use glm_5_2_gb.Common.Int.{ℤ, negsuc}
use glm_5_2_gb.Float.{Arith}
use glm_5_2_gb.Softmax.{Logit, neg_inf, fin, State, Row, exp_below, blank}
use glm_5_2_gb.SparseMla.Accumulate.{
  is_nonneg, is_below, row_of, cdiv, mask_row, dot, visit, load_queries, store_heads,
}
use glm_5_2_gb.SparseMla.Finish.{is_finite, maximum, finish_attention_state_with_sink}
use glm_5_2_gb.Sm12x.Prefill.{value_dim, safe_lse, sink_of, lens_of}

-- The bytes of a token: fp8 values, a float32 scale for each `quant_tile` of them, bf16 values.
pub record Entry : Type 0 where
  pub nope_dim : ℕ
  pub rope_dim : ℕ
  pub quant_tile : ℕ
  pub scale_byte_off : ℕ
  pub rope_byte_off : ℕ

-- `_FP8DS_NOPE_DIM` and the constants after it
abbrev pub fp8ds_entry : Entry
fp8ds_entry = record {
  nope_dim = 512;
  rope_dim = 64;
  quant_tile = 128;
  scale_byte_off = 512;
  rope_byte_off = 512 + 4 * (512 / 128);
}

-- A byte as float8e4nv; 32 bits as float32, for a scale, which is not negative; two bytes, the low one
-- first, as bfloat16.
pub record EntryCasts (a : Arith) : Type 0 where
  pub fp8 : ℕ → a.E
  pub f32 : ℕ → a.W
  pub bf16 : ℕ → ℕ → a.E

-- `(b0 & 0xFF) | ((b1 & 0xFF) << 8) | ...`: the bytes have no bit in common.
unfoldable pub scale_bits : ℕ → ℕ → ℕ → ℕ → ℕ
scale_bits b0 b1 b2 b3 = b0 % 256 + b1 % 256 * 2 ^ 8 + b2 % 256 * 2 ^ 16 + b3 % 256 * 2 ^ 24

unfoldable pub is_slot : ℕ → ℤ → Bool
is_slot total_slots slot = is_nonneg slot && is_below slot total_slots

-- A load of an index with the mask `cand < num_candidates` and `other=-1`
unfoldable pub tile_slot : ℕ → (ℕ → ℤ) → ℕ → ℤ
tile_slot num_candidates indices cand = if ltb cand num_candidates then indices cand else negsuc 0

-- `cand_valid` of `_fused_gather_dequant_attn_kernel`
unfoldable pub fused_valid : ℕ → (ℕ → ℤ) → ℕ → ℕ → ℕ → Bool
unfolding is_slot tile_slot
fused_valid total_slots indices num_candidates valid_len cand =
    is_slot total_slots (tile_slot num_candidates indices cand) && ltb cand valid_len

module _ (a : Arith) where
  open a use {S, W, E, exp, mul_S, add_S, zero_S, zero_W, add_W, mul_W, zero_E, add_E, act}

  -- `tl.max` and `tl.sum` over the candidates `i`, ..., `i + n - 1` of a tile, and `tl.dot`.
  unfoldable pub tile_max : ℕ → ℕ → (ℕ → Logit S) → Logit S
  tile_max zero i scores = neg_inf
  tile_max (suc n) i scores = maximum a (scores i) (tile_max n (suc i) scores)

  unfoldable pub tile_sum : ℕ → ℕ → (ℕ → W) → W
  tile_sum zero i p = zero_W
  tile_sum (suc n) i p = add_W (p i) (tile_sum n (suc i) p)

  unfoldable pub tile_dot : ℕ → ℕ → (ℕ → W) → (ℕ → E) → E
  tile_dot zero i p kv = zero_E
  tile_dot (suc n) i p kv = add_E (act (p i) (kv i)) (tile_dot n (suc i) p kv)

  -- `tl.where(next_max == -inf, 0.0, next_max)`
  unfoldable pub safe_next : Logit S → S
  safe_next neg_inf = zero_S
  safe_next (fin m) = m

  -- The online-softmax update by a tile of candidates, of which some are not valid.
  unfoldable pub tile_update : ℕ → ℕ → (ℕ → Bool) → (ℕ → Logit S) → (ℕ → Row a) → State a → State a
  unfolding safe_next
  tile_update n i valid scores kv st =
      let next_max = maximum a st.max_score (tile_max n i scores) in
      let safe = safe_next next_max in
      let previous_weight =
        if is_finite a st.max_score then exp_below a st.max_score safe else zero_W in
      let p = λ (j : ℕ). if valid j then exp_below a (scores j) safe else zero_W in
      record {
        max_score = next_max;
        denom = add_W (mul_W st.denom previous_weight) (tile_sum n i p);
        acc = λ d. add_E (act previous_weight (st.acc d)) (tile_dot n i p (λ j. kv j d));
      }

  module _ (scale : S) (head_dim block_d : ℕ) where
    -- `_materialized_attn_kernel`: a program for a block of heads.
    unfoldable pub materialized_body :
        (ℕ → Row a) → (ℕ → Row a) → (ℕ → Bool) → ℕ → (ℕ → State a) → ℕ → State a
    materialized_body queries kv valid i lanes =
        if valid i
        then (λ lane. visit a head_dim block_d scale (queries lane) (kv i) (lanes lane))
        else lanes

    unfoldable pub materialized_attn :
        ℕ → ℕ → (ℕ → Row a) → (ℕ → Row a) → (ℕ → Bool) → ℕ → ℕ → (ℕ → State a) → ℕ → State a
    materialized_attn head_block num_heads q kv valid num_candidates head_block_idx sts =
        let queries = load_queries a head_dim block_d scale num_heads q head_block head_block_idx in
        store_heads a head_dim block_d scale num_heads sts head_block head_block_idx
          (for_range num_candidates 0 (materialized_body queries kv valid) (λ lane. blank a))

  module _ (casts : EntryCasts a) (e : Entry) (cache : ℕ → ℕ) (stride_cache_s : ℕ) where
    -- The fp8 values of a slot, scaled, and its bf16 values.
    unfoldable pub nope_row : ℕ → Row a
    unfolding scale_bits
    nope_row slot d =
        let base = slot * stride_cache_s in
        let scale_byte = base + e.scale_byte_off + d / e.quant_tile * 4 in
        act
          (casts.f32 (
            scale_bits (cache (scale_byte + 0)) (cache (scale_byte + 1)) (cache (scale_byte + 2))
              (cache (scale_byte + 3))))
          (casts.fp8 (cache (base + d)))

    unfoldable pub rope_row : ℕ → Row a
    rope_row slot d =
        let rope_ptr = slot * stride_cache_s + e.rope_byte_off + 2 * d in
        casts.bf16 (cache rope_ptr) (cache (rope_ptr + 1))

    -- `tl.where(nope_mask, nope, rope)`
    unfoldable pub entry_row : ℕ → Row a
    unfolding nope_row rope_row
    entry_row slot d = if ltb d e.nope_dim then nope_row slot d else rope_row slot (d - e.nope_dim)

    -- `_gather_dequant_fp8ds_kernel`: the row of candidate `k`, over what the memory holds.
    unfoldable pub gather_dequant : ℕ → ℕ → (ℕ → ℤ) → (ℕ → Row a) → ℕ → Row a
    unfolding is_slot entry_row
    gather_dequant block_d total_slots indices out k d =
        let slot = indices k in
        let dim_mask = ltb d (e.nope_dim + e.rope_dim) && ltb d block_d in
        let kv = if is_slot total_slots slot then entry_row (row_of slot) d else zero_E in
        if dim_mask then kv else out k d

    module _ (scale : S) (block_n block_nope block_rope total_slots : ℕ) (indices : ℕ → ℤ)
        (num_candidates valid_len : ℕ) where
      -- One tile of the fused kernel, for one head: the rows, the scores, the update.
      unfoldable pub kv_nope : ℕ → Row a
      unfolding fused_valid nope_row
      kv_nope cand d =
          let slot = row_of (tile_slot num_candidates indices cand) in
          if fused_valid total_slots indices num_candidates valid_len cand
          then mask_row a e.nope_dim (nope_row slot) d
          else zero_E

      unfoldable pub kv_rope : ℕ → Row a
      unfolding fused_valid rope_row
      kv_rope cand d =
          let slot = row_of (tile_slot num_candidates indices cand) in
          if fused_valid total_slots indices num_candidates valid_len cand
          then mask_row a e.rope_dim (rope_row slot) d
          else zero_E

      unfoldable pub fused_score : Row a → ℕ → Logit S
      unfolding fused_valid kv_nope kv_rope
      fused_score q cand =
          let q_nope = mask_row a e.nope_dim q in
          let q_rope = mask_row a e.rope_dim (λ d. q (e.nope_dim + d)) in
          if fused_valid total_slots indices num_candidates valid_len cand
          then fin (
              mul_S
                (add_S (dot a block_nope q_nope (kv_nope cand))
                  (dot a block_rope q_rope (kv_rope cand)))
                scale)
          else neg_inf

      unfoldable pub fused_tile : Row a → ℕ → State a → State a
      unfolding fused_valid fused_score kv_nope tile_update
      fused_tile q tile st =
          tile_update block_n (tile * block_n)
            (fused_valid total_slots indices num_candidates valid_len) (fused_score q) kv_nope st

      -- The kernel: a program for a block of heads, its lanes in step.
      unfoldable pub fused_attn : ℕ → ℕ → (ℕ → Row a) → ℕ → (ℕ → State a) → ℕ → State a
      unfolding fused_tile
      fused_attn head_block num_heads q head_block_idx sts =
          let queries =
            load_queries a e.nope_dim block_nope scale num_heads q head_block head_block_idx in
          store_heads a e.nope_dim block_nope scale num_heads sts head_block head_block_idx (
            for_range (cdiv num_candidates block_n) 0
              (λ tile lanes lane. fused_tile (queries lane) tile (lanes lane)) (λ lane. blank a))
