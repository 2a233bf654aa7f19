-- ===== src/Indexer/Torch.antt =====
-- The paged logits by products, `_fp8_paged_mqa_logits_torch` of
-- kernels/sm12x_deep_gemm_fallbacks.py, and the choice between them and the kernels, for one row of
-- queries and a cache of one scale a slot. A context is not negative; none of it is no chunk.
use glm_5_2_gb.Common.{
  ℕ, ◌+◌, ◌-◌, ◌*◌, ◌/◌, ◌<◌, ◌≤◌, min, max, Bool, true, false, ◌&&◌, ◌||◌, ◌≡◌, refl, sym, ap, ◌∙◌,
  fun_ext, Option, some, List, tabulate, arith, ltb, leb, ◌==◌, ◌>>=◌, ◌>>◌, guard, for_range,
  if◌then◌else◌,
}
use glm_5_2_gb.Softmax.{Logit, neg_inf, fin}
use glm_5_2_gb.SparseMla.Accumulate.{cdiv}
use glm_5_2_gb.SparseMla.D512.Stores.{in_block, blocks-all}
use glm_5_2_gb.Sm12x.KvCache.Fused.{tiles-cover}
use glm_5_2_gb.Indexer.Chosen.{tabulate-on}
use glm_5_2_gb.Indexer.Totals.{total-on, dot-scale}
use glm_5_2_gb.Indexer.{Values, IsExactSum, max_score_bytes, total, dot}
use glm_5_2_gb.Indexer.Paged.{PagedView, paged_logits}
use glm_5_2_gb.Indexer.Paged.Scores.{position_logit}
use glm_5_2_gb.Indexer.Paged.Rows.{paged_logits-eq}
use glm_5_2_gb.Indexer.Paged.Best.{succeeding_rounds}

-- `max_tokens_per_chunk`
unfoldable pub tokens_per_chunk : ℕ → ℕ
tokens_per_chunk num_heads = max 1 (max_score_bytes / max 1 (num_heads * 4))

module _ (v : Values) (kv : PagedView v) (block_kv head_dim num_heads : ℕ) (q : ℕ → ℕ → v.V)
    (weights : ℕ → v.V) (context_len : ℕ) (block_table : ℕ → ℕ) where
  open v use {V, mul, relu}

  -- `scores.sum(dim=0)` at a token
  unfoldable pub token_score : ℕ → V
  unfolding dot total
  token_score token_id =
      let logical_block = token_id / block_kv in
      let token_in_block = token_id - logical_block * block_kv in
      let physical_block = block_table logical_block in
      let kv_chunk = λ (d : ℕ).
        mul (kv.values physical_block token_in_block d) (kv.scale physical_block token_in_block) in
      total v (λ h. mul (relu (dot v head_dim (q h) kv_chunk)) (weights h)) num_heads 0

  -- A chunk, stored into a slice that ends at `max_model_len` at the latest: a chunk of another size
  -- than the slice is an error, unless it is of one token, which is broadcast.
  unfoldable pub store_chunk : ℕ → ℕ → (ℕ → Logit V) → Option (ℕ → Logit V)
  unfolding token_score tokens_per_chunk
  store_chunk max_model_len b logits = do
    let token_start = b * tokens_per_chunk num_heads
    let token_end = min context_len (token_start + tokens_per_chunk num_heads)
    let chunk_len = token_end - token_start
    guard (leb token_end max_model_len || (chunk_len == 1))
    some (λ token.
        if leb token_start token && ltb token token_end && ltb token max_model_len
        then fin (token_score token)
        else logits token)

  unfoldable pub paged_logits_torch : ℕ → Option (List (Logit V))
  unfolding store_chunk tokens_per_chunk cdiv
  paged_logits_torch max_model_len = do
    logits ←
        for_range (cdiv context_len (tokens_per_chunk num_heads)) 0
          (λ b r. r >>= store_chunk max_model_len b) (some (λ (token : ℕ). neg_inf))
    some (tabulate logits max_model_len 0)

  -- `_fp8_paged_mqa_logits_sm12x`
  unfoldable pub paged_logits_sm12x : Bool → ℕ → (ℕ → Logit V) → Option (List (Logit V))
  unfolding paged_logits_torch paged_logits
  paged_logits_sm12x use_triton max_model_len empty =
      if use_triton
      then paged_logits v kv block_kv head_dim num_heads q weights context_len block_table
          max_model_len 0 max_model_len empty
      else paged_logits_torch max_model_len

module _ {v : Values} (laws : IsExactSum v) (kv : PagedView v) (block_kv head_dim num_heads : ℕ)
    (q : ℕ → ℕ → v.V) (weights : ℕ → v.V) (context_len : ℕ) (block_table : ℕ → ℕ) where
  abbrev score : ℕ → v.V
  score = token_score v kv block_kv head_dim num_heads q weights context_len block_table

  -- The scale is taken into the rows, or after the products.
  token_score-eq :
      (token : ℕ)
      → (if ltb token context_len then fin (score token) else neg_inf)
        ≡ position_logit kv block_kv head_dim num_heads q weights context_len block_table token
  unfolding token_score position_logit
  token_score-eq token =
      let block = block_table (token / block_kv) in
      let slot : ℕ = token - token / block_kv * block_kv in
      ap (λ x. if ltb token context_len then fin x else neg_inf)
        (total-on laws _ _ num_heads 0 (λ h _ _.
          ap (λ x. v.mul (v.relu x) (weights h))
            (sym (dot-scale laws head_dim (q h) (kv.values block slot) (kv.scale block slot)))))

  chunk_positive : 0 < tokens_per_chunk num_heads
  unfolding tokens_per_chunk
  chunk_positive = omega arith

  abbrev chunk_stored : ℕ → (ℕ → Logit v.V) → ℕ → Logit v.V
  chunk_stored b mem r =
      if in_block (tokens_per_chunk num_heads) context_len b r then fin (score r) else mem r

  store_chunk-eq :
      (max_model_len b : ℕ) (mem : ℕ → Logit v.V)
      → context_len ≤ max_model_len
      → store_chunk v kv block_kv head_dim num_heads q weights context_len block_table max_model_len
          b mem
        ≡ some (chunk_stored b mem)
  unfolding store_chunk in_block
  store_chunk-eq max_model_len b mem fits =
      let n = tokens_per_chunk num_heads in
      let inside : leb (min context_len (b * n + n)) max_model_len ≡ true = ground arith in
      rw inside (ap some (fun_ext (λ r. ground arith)))

  -- With exact arithmetic and a context no longer than max_model_len, by products of scaled rows
  -- in chunks of tokens or by either paged kernel in one window: no assertion or slice fails, and
  -- each of the max_model_len positions gets the sum of all the heads' weighted scores of the slot
  -- that the block table names, or -inf past the context.
  pub paged_logits_sm12x_lem :
      (use_triton : Bool) (max_model_len : ℕ) (empty : ℕ → Logit v.V)
      → context_len ≤ max_model_len
      → paged_logits_sm12x v kv block_kv head_dim num_heads q weights context_len block_table
          use_triton max_model_len empty
        ≡ some (
            tabulate
              (position_logit kv block_kv head_dim num_heads q weights context_len block_table)
              max_model_len
              0)
  unfolding paged_logits_sm12x paged_logits_torch
  paged_logits_sm12x_lem true max_model_len empty fits =
      paged_logits-eq kv block_kv head_dim num_heads q weights context_len block_table laws 0
        max_model_len max_model_len empty (omega arith)
  paged_logits_sm12x_lem false max_model_len empty fits =
      let n = tokens_per_chunk num_heads in
      let rounds : ℕ = cdiv context_len n in
      let start = λ (token : ℕ). neg_inf in
      ap (λ m. m >>= (λ logits. some (tabulate logits max_model_len 0)))
        (succeeding_rounds
          (store_chunk v kv block_kv head_dim num_heads q weights context_len block_table
            max_model_len)
          chunk_stored rounds 0 start (λ b mem _. store_chunk-eq max_model_len b mem fits))
      ∙ ap some (
          tabulate-on _ _ max_model_len 0 (λ token _ _.
            blocks-all n context_len (λ r _. fin (score r)) chunk_stored (λ b mem r. refl)
              chunk_positive rounds (tiles-cover context_len n chunk_positive) start token
            ∙ token_score-eq token))
