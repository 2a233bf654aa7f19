-- ===== src/Indexer/Triton.antt =====
-- `fp8_mqa_logits_triton` of kernels/sm12x_mqa.py, and the choice between it and the product in
-- `_fp8_mqa_logits_sm12x` of kernels/sm12x_deep_gemm_fallbacks.py, for one row of queries.
use mathlib.Core.Path.{ap₂}
use glm_5_2_gb.Common.{
  ℕ, ◌*◌, ◌<◌, Bool, true, false, ◌&&◌, ◌≡◌, refl, ap, ◌∙◌, arith, ltb, leb, lt→ltb, for_range,
  if◌then◌else◌,
}
use glm_5_2_gb.Softmax.{Logit, neg_inf, fin}
use glm_5_2_gb.SparseMla.Accumulate.{cdiv}
use glm_5_2_gb.SparseMla.D512.Stores.{in_block, blocks-all}
use glm_5_2_gb.Sm12x.KvCache.Fused.{tiles-cover}
use glm_5_2_gb.Indexer.Totals.{dot-scale, covering-total, loop-total}
use glm_5_2_gb.Indexer.Logits.{mqa_logits_lem}
use glm_5_2_gb.Indexer.{Values, IsExactSum, total, dot, head_score, mqa_logits}

module _ (v : Values) (head_dim : ℕ) (q : ℕ → ℕ → v.V) (k_values : ℕ → ℕ → v.V) (k_scales : ℕ → v.V)
    (weights : ℕ → v.V) (seq_len seq_len_kv num_heads : ℕ) where
  open v use {V, zero_V, add, mul, relu}

  -- The scores of a head, by blocks of 64 dimensions.
  unfoldable pub mqa_scores : ℕ → ℕ → V
  unfolding total cdiv
  mqa_scores h key =
      for_range (cdiv head_dim 64) 0
        (λ b scores. add scores (
          total v
            (λ d.
              let q_d = if ltb d head_dim then q h d else zero_V in
              let k_d = if ltb key seq_len_kv && ltb d head_dim then k_values key d else zero_V in
              mul q_d k_d)
            64 (b * 64)))
        zero_V

  -- The loop over heads of `_fp8_mqa_logits_kernel`, and what it stores.
  unfoldable pub mqa_heads : ℕ → V
  unfolding mqa_scores
  mqa_heads key =
      for_range num_heads 0
        (λ h logits.
          let scale = if ltb key seq_len_kv then k_scales key else zero_V in
          let weighted = relu (mul (mqa_scores h key) scale) in
          add logits (mul weighted (weights h)))
        zero_V

  unfoldable pub mqa_logits_kernel : Bool → ℕ → ℕ → ℕ → (ℕ → Logit V) → ℕ → Logit V
  unfolding mqa_heads in_block
  mqa_logits_kernel clean_logits ks ke pid_n logits key =
      let seq_mask = if clean_logits then leb ks key && ltb key ke else ltb key seq_len_kv in
      let masked = if seq_mask && ltb key seq_len_kv then fin (mqa_heads key) else neg_inf in
      if in_block 64 seq_len_kv pid_n key then masked else logits key

  unfoldable pub mqa_logits_triton : Bool → ℕ → ℕ → (ℕ → Logit V) → ℕ → Logit V
  unfolding mqa_logits_kernel cdiv
  mqa_logits_triton clean_logits ks ke empty =
      for_range (cdiv seq_len_kv 64) 0 (mqa_logits_kernel clean_logits ks ke) empty

  unfoldable pub mqa_logits_sm12x : Bool → Bool → ℕ → ℕ → (ℕ → Logit V) → ℕ → Logit V
  unfolding mqa_logits_triton mqa_logits
  mqa_logits_sm12x use_triton clean_logits ks ke empty key =
      if use_triton
      then mqa_logits_triton clean_logits ks ke empty key
      else mqa_logits v head_dim q k_values k_scales weights seq_len seq_len_kv num_heads
          clean_logits ks ke key

module _ {v : Values} (laws : IsExactSum v) (head_dim : ℕ) (q : ℕ → ℕ → v.V)
    (k_values : ℕ → ℕ → v.V) (k_scales : ℕ → v.V) (weights : ℕ → v.V)
    (seq_len seq_len_kv num_heads : ℕ) where
  -- Scaling a sum of products, or each of them.
  mqa_scores-eq :
      (h key : ℕ)
      → key < seq_len_kv
      → v.mul
          (mqa_scores v head_dim q k_values k_scales weights seq_len seq_len_kv num_heads h key)
          (k_scales key)
        ≡ dot v head_dim (q h) (λ d. v.mul (k_values key d) (k_scales key))
  unfolding mqa_scores dot
  mqa_scores-eq h key inside =
      ap (λ x. v.mul x (k_scales key))
        (covering-total laws
          (λ d.
            v.mul (if ltb d head_dim then q h d else v.zero_V)
              (if ltb key seq_len_kv && ltb d head_dim then k_values key d else v.zero_V))
          (λ d. v.mul (q h d) (k_values key d)) 64 (cdiv head_dim 64) head_dim
          (tiles-cover head_dim 64 (omega arith))
          (λ d h'. rw (lt→ltb key seq_len_kv inside, lt→ltb d head_dim h') refl)
          (λ d h'. let past : ltb d head_dim ≡ false = ground arith in rw past (laws.zero-mul _)))
      ∙ dot-scale laws head_dim (q h) (k_values key) (k_scales key)

  abbrev scored : ℕ → ℕ → v.V
  scored key h =
      head_score v head_dim q k_values k_scales weights seq_len seq_len_kv num_heads h key

  mqa_heads-eq :
      (key : ℕ)
      → key < seq_len_kv
      → mqa_heads v head_dim q k_values k_scales weights seq_len seq_len_kv num_heads key
        ≡ total v (scored key) num_heads 0
  unfolding mqa_heads head_score
  mqa_heads-eq key inside =
      loop-total laws
        (λ h.
          let scale = if ltb key seq_len_kv then k_scales key else v.zero_V in
          let scores =
            mqa_scores v head_dim q k_values k_scales weights seq_len seq_len_kv num_heads h key in
          v.mul (v.relu (v.mul scores scale)) (weights h))
        (scored key) num_heads
        (λ h.
          ap
            (λ (b : Bool).
              let scores =
                mqa_scores v head_dim q k_values k_scales weights seq_len seq_len_kv num_heads h
                  key in
              v.mul (v.relu (v.mul scores (if b then k_scales key else v.zero_V))) (weights h))
            (lt→ltb key seq_len_kv inside)
          ∙ ap (λ x. v.mul (v.relu x) (weights h)) (mqa_scores-eq h key inside))

  -- A key of the sequence is masked by its bounds, if at all.
  masked_once :
      (clean_logits within : Bool) (logit : v.V)
      → (if (if clean_logits then within else true) && true then fin logit else neg_inf)
        ≡ (if clean_logits then (if within then fin logit else neg_inf) else fin logit)
  masked_once false within logit = refl
  masked_once true false logit = refl
  masked_once true true logit = refl

  -- With exact arithmetic, a key of the sequence gets the sum of all the heads' weighted scores,
  -- and with clean_logits -inf outside the row's bounds: the same by the Triton kernel, which
  -- scales sums of products in blocks of 64 dimensions, and by the products of scaled rows in
  -- chunks of heads and of keys.
  pub mqa_logits_sm12x_lem :
      (use_triton clean_logits : Bool) (ks ke : ℕ) (empty : ℕ → Logit v.V) (key : ℕ)
      → key < seq_len_kv
      → let logit =
          total v
            (λ h.
              head_score v head_dim q k_values k_scales weights seq_len seq_len_kv num_heads h key)
            num_heads
            0 in
        mqa_logits_sm12x v head_dim q k_values k_scales weights seq_len seq_len_kv num_heads
          use_triton clean_logits ks ke empty key
        ≡ (if clean_logits
            then (if leb ks key && ltb key ke then fin logit else neg_inf)
            else fin logit)
  unfolding mqa_logits_sm12x mqa_logits_triton mqa_logits_kernel
  mqa_logits_sm12x_lem false clean_logits ks ke empty key inside =
      mqa_logits_lem laws head_dim q k_values k_scales weights seq_len seq_len_kv num_heads
        clean_logits ks ke key inside
  mqa_logits_sm12x_lem true clean_logits ks ke empty key inside =
      blocks-all 64 seq_len_kv
        (λ r _.
          let seq_mask = if clean_logits then leb ks r && ltb r ke else ltb r seq_len_kv in
          if seq_mask && ltb r seq_len_kv
          then fin (mqa_heads v head_dim q k_values k_scales weights seq_len seq_len_kv num_heads r)
          else neg_inf)
        _ (λ b mem r. refl) (omega arith) (cdiv seq_len_kv 64)
        (tiles-cover seq_len_kv 64 (omega arith)) empty key
      ∙ ap₂
          (λ (b : Bool) (logit : v.V).
            let seq_mask = if clean_logits then leb ks key && ltb key ke else b in
            if b then (if seq_mask && b then fin logit else neg_inf) else empty key)
          (lt→ltb key seq_len_kv inside) (mqa_heads-eq key inside)
      ∙ masked_once clean_logits _ _
