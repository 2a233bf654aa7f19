-- ===== src/Indexer/Paged.antt =====
-- The logits of the indexer over a paged cache, of kernels/sm12x_mqa.py, and their running top-k, of
-- kernels/sm12x_deep_gemm_fallbacks.py, for one row. A failing assertion gives `none`. Block numbers
-- are not negative; `torch.empty` is a tensor that is given. Triton's casts of bytes are a parameter.
pub mod Scores
pub mod Rows
pub mod Best
use glm_5_2_gb.Common.{
  ℕ, zero, suc, ◌+◌, ◌-◌, ◌*◌, ◌/◌, ◌%◌, min, max, Bool, true, false, ◌&&◌, ◌||◌, ◌≡◌, Option, none,
  some, List, map, replicate, tabulate, ltb, leb, ◌==◌, ◌>>=◌, ◌>>◌, guard, if◌then◌else◌,
  for_range,
}
use glm_5_2_gb.Common.Int.{ℤ, pos, negsuc}
use glm_5_2_gb.Softmax.{Logit, neg_inf, fin}
use glm_5_2_gb.SparseMla.Accumulate.{cdiv}
use glm_5_2_gb.SparseMla.D512.Stores.{in_block}
use glm_5_2_gb.Indexer.{Values, Lane, Topk, total, merge_topk, no_lanes}

-- `_paged_mqa_topk_chunk_size`: the environment's variable is not set, or is no int, or is one.
unfoldable pub paged_topk_chunk_size : Option (Option ℤ) → ℕ
paged_topk_chunk_size none = 8192
paged_topk_chunk_size (some none) = 8192
paged_topk_chunk_size (some (some (pos n))) = max 1 n
paged_topk_chunk_size (some (some (negsuc n))) = 1

-- The bytes of the cache's storage, where the cache starts in them, and how its blocks lie. The
-- cache has one head.
pub record PagedCache : Type 0 where
  pub byte : ℕ → ℕ
  pub storage_offset : ℕ
  pub block_stride : ℕ
  pub block_size : ℕ
  pub head_dim_with_scale : ℕ

module _ (v : Values) where
  open v use {V, zero_V, add, mul, relu}

  pub record ByteCasts : Type 0 where
    pub fp8 : ℕ → V
    pub f32 : ℕ → ℕ → ℕ → ℕ → V

  -- The values of a slot of a block, and its scale.
  pub record PagedView : Type 0 where
    pub values : ℕ → ℕ → ℕ → V
    pub scale : ℕ → ℕ → V

  -- What the documentation of PyTorch's `view` to a type of 4 bytes asks of a tensor of bytes, or
  -- it raises: the offset and every stride but the last, which is 1, are multiples of 4, and so is
  -- the last size.
  unfoldable pub is_float32_view : ℕ → ℕ → ℕ → Bool
  is_float32_view block_stride scale_bytes storage_offset =
      (scale_bytes % 4 == 0) && (block_stride % 4 == 0) && (storage_offset % 4 == 0)

  -- `_view_packed_fp8_paged_mqa_kv_cache`: a block's values, and then its scales.
  unfoldable pub view_packed : ByteCasts → PagedCache → ℕ → Option PagedView
  unfolding is_float32_view
  view_packed casts c head_dim = do
    let scale_bytes = c.head_dim_with_scale - head_dim
    guard (ltb 0 scale_bytes && (scale_bytes % 4 == 0))
    let base_storage_offset = c.storage_offset
    let scale_offset = base_storage_offset + c.block_size * head_dim
    guard (is_float32_view c.block_stride scale_bytes scale_offset)
    some (record {
      values = λ block slot d.
          let p = base_storage_offset + block * c.block_stride + slot * head_dim + d in
          casts.fp8 (c.byte p);
      scale = λ block slot.
          let p = scale_offset + block * c.block_stride + slot * scale_bytes in
          casts.f32 (c.byte p) (c.byte (p + 1)) (c.byte (p + 2)) (c.byte (p + 3));
    })

  module _ (kv : PagedView) (block_size head_dim num_heads : ℕ) (q : ℕ → ℕ → V) (weights : ℕ → V)
      (context_len : ℕ) (block_table : ℕ → ℕ) where
    module _ (token_start logits_width : ℕ) where
      -- What both kernels load for a position of the window.
      unfoldable pub in_context : ℕ → Bool
      in_context local = ltb local logits_width && ltb (token_start + local) context_len

      unfoldable pub load_k : ℕ → ℕ → V
      unfolding in_context
      load_k local d =
          let position = token_start + local in
          let block_rank = position / block_size in
          let block_offset = position - block_rank * block_size in
          if in_context local && ltb d head_dim
          then kv.values (block_table block_rank) block_offset d
          else zero_V

      unfoldable pub load_scale : ℕ → V
      unfolding in_context
      load_scale local =
          let position = token_start + local in
          let block_rank = position / block_size in
          let block_offset = position - block_rank * block_size in
          if in_context local then kv.scale (block_table block_rank) block_offset else zero_V

      -- The loop over blocks of 64 dimensions, for a loaded query.
      unfoldable pub score_loop : (ℕ → V) → ℕ → V
      unfolding load_k total cdiv
      score_loop q_row local =
          for_range (cdiv head_dim 64) 0
            (λ b scores. add scores (total v (λ d. mul (q_row d) (load_k local d)) 64 (b * 64)))
            zero_V

      -- `_fp8_paged_mqa_logits_kernel`: head by head.
      unfoldable pub paged_logit : ℕ → Logit V
      unfolding score_loop load_scale in_context
      paged_logit local =
          let logit =
            for_range num_heads 0
              (λ h logits.
                let q_row = λ (d : ℕ). if ltb d head_dim then q h d else zero_V in
                let weighted = relu (mul (score_loop q_row local) (load_scale local)) in
                add logits (mul weighted (weights h)))
              zero_V in
          if in_context local then fin logit else neg_inf

      unfoldable pub paged_logits_kernel : ℕ → (ℕ → Logit V) → ℕ → Logit V
      unfolding paged_logit in_block
      paged_logits_kernel pid_n logits local =
          if in_block 64 logits_width pid_n local then paged_logit local else logits local

      -- `_fp8_paged_mqa_logits_rowwise_kernel`: heads by blocks of 8; a window past the context is
      -- not computed.
      unfoldable pub rowwise_weighted : ℕ → ℕ → V
      unfolding score_loop load_scale
      rowwise_weighted local head =
          let valid_h = ltb head num_heads in
          let q_row = λ (d : ℕ). if valid_h && ltb d head_dim then q head d else zero_V in
          let weight = if valid_h then weights head else zero_V in
          mul (relu (mul (score_loop q_row local) (load_scale local))) weight

      unfoldable pub rowwise_logit : ℕ → ℕ → Logit V
      unfolding rowwise_weighted total in_context cdiv
      rowwise_logit pid_n local =
          let logit =
            for_range (cdiv num_heads 8) 0
              (λ b logits. add logits (total v (rowwise_weighted local) 8 (b * 8))) zero_V in
          if leb context_len (token_start + pid_n * 128)
          then neg_inf
          else if in_context local
          then fin logit
          else neg_inf

      unfoldable pub rowwise_logits_kernel : ℕ → (ℕ → Logit V) → ℕ → Logit V
      unfolding rowwise_logit in_block
      rowwise_logits_kernel pid_n logits local =
          if in_block 128 logits_width pid_n local then rowwise_logit pid_n local else logits local

    -- `fp8_paged_mqa_logits_rowwise_triton`
    unfoldable pub rowwise_logits : ℕ → ℕ → ℕ → (ℕ → Logit V) → Option (List (Logit V))
    unfolding rowwise_logits_kernel cdiv
    rowwise_logits max_model_len token_start token_count empty = do
      guard (leb (token_start + token_count) max_model_len)
      let logits =
          for_range (cdiv token_count 128) 0 (rowwise_logits_kernel token_start token_count) empty
      some (tabulate logits token_count 0)

    -- `fp8_paged_mqa_logits_triton`
    unfoldable pub paged_logits : ℕ → ℕ → ℕ → (ℕ → Logit V) → Option (List (Logit V))
    unfolding rowwise_logits paged_logits_kernel cdiv
    paged_logits max_model_len token_start token_count empty =
        if (head_dim % 64 == 0) && (num_heads % 4 == 0)
        then rowwise_logits max_model_len token_start token_count empty
        else (do
          guard (leb (token_start + token_count) max_model_len)
          let logits =
              for_range (cdiv token_count 64) 0 (paged_logits_kernel token_start token_count) empty
          some (tabulate logits token_count 0))

    -- The loop of `fp8_fp4_paged_mqa_topk_indices`
    unfoldable pub paged_round :
        Topk v → ℕ → ℕ → ℕ → (ℕ → Logit V) → ℕ → List (Lane v) → Option (List (Lane v))
    unfolding paged_logits merge_topk
    paged_round t topk_tokens max_model_len chunk_size empty b lanes = do
      let token_start = b * chunk_size
      let token_count = min chunk_size (max_model_len - token_start)
      chunk_logits ← paged_logits max_model_len token_start token_count empty
      some (merge_topk v t topk_tokens chunk_logits token_start lanes)

    unfoldable pub paged_topk_loop : Topk v → ℕ → ℕ → ℕ → (ℕ → Logit V) → Option (List (Option ℕ))
    unfolding paged_round no_lanes cdiv
    paged_topk_loop t topk_tokens max_model_len chunk_size empty = do
      lanes ←
          for_range (cdiv max_model_len chunk_size) 0
            (λ b r. r >>= paged_round t topk_tokens max_model_len chunk_size empty b)
            (some (no_lanes v topk_tokens))
      some (map (λ l. l.1) lanes)

  -- `fp8_fp4_paged_mqa_topk_indices`, where `enabled` is its test of the switch, the platform, the
  -- query and the cache's type. The result is whether it wrote the indices.
  unfoldable pub paged_topk_indices :
      ByteCasts
      → PagedCache
      → Bool
      → ℕ
      → ℕ
      → (ℕ → ℕ → V)
      → (ℕ → V)
      → ℕ
      → (ℕ → ℕ)
      → Topk v
      → Option (Option ℤ)
      → ℕ
      → ℕ
      → (ℕ → Logit V)
      → List (Option ℕ)
      → Option (Bool × List (Option ℕ))
  unfolding view_packed paged_topk_loop paged_topk_chunk_size
  paged_topk_indices casts c enabled head_dim num_heads q weights context_len block_table t
        configured topk_tokens max_model_len empty topk_indices =
      if enabled && (c.head_dim_with_scale == head_dim + 4)
      then (if (topk_tokens == 0) || (max_model_len == 0)
          then some (true, replicate topk_tokens none)
          else (do
            kv ← view_packed casts c head_dim
            out ←
                paged_topk_loop kv c.block_size head_dim num_heads q weights context_len block_table
                  t topk_tokens max_model_len (paged_topk_chunk_size configured) empty
            some (true, out)))
      else some (false, topk_indices)
