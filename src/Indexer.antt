-- ===== src/Indexer.antt =====
-- The indexer's logits and their running top-k, of kernels/sm12x_deep_gemm_fallbacks.py, for one row of
-- queries. `torch.topk` is a parameter; a product of rows is the sum of the elements' products. A column of
-- two tensors of one shape, values and indices, is a pair; an index of -1 is `none`.
pub mod Counts
pub mod Chosen
pub mod Merge
pub mod Round
pub mod TopK
pub mod Totals
pub mod Logits
pub mod Triton
pub mod Paged
pub mod Torch
use mathlib.Core.List.{Perm}
use glm_5_2_gb.Common.{
  ℕ, zero, suc, ◌+◌, ◌-◌, ◌*◌, ◌/◌, ◌≤◌, min, max, Bool, true, false, ◌&&◌, ◌≡◌, Option, none, some,
  List, [], ◌∷◌, ◌++◌, map, length, replicate, get_or, tabulate, All, ltb, leb, ◌==◌, if◌then◌else◌,
  for_range,
}
use glm_5_2_gb.Common.Permutations.{range}
use glm_5_2_gb.Softmax.{Logit, neg_inf, fin}
use glm_5_2_gb.SparseMla.Accumulate.{cdiv}

-- The float32 arithmetic of the logits; `above s t` is s > t.
pub record Values : Type 1 where
  pub V : Type 0
  pub zero_V : V
  pub add : V → V → V
  pub mul : V → V → V
  pub relu : V → V
  pub above : V → V → Bool

-- Rounding is not modelled, and floats are compared as by a weak order.
pub record IsExactSum (v : Values) : Type 0 where
  pub add_assoc : (x y z : v.V) → v.add (v.add x y) z ≡ v.add x (v.add y z)
  pub zero-add : (x : v.V) → v.add v.zero_V x ≡ x
  pub add-zero : (x : v.V) → v.add x v.zero_V ≡ x
  pub mul_assoc : (x y z : v.V) → v.mul (v.mul x y) z ≡ v.mul x (v.mul y z)
  pub add-mul : (x y z : v.V) → v.mul (v.add x y) z ≡ v.add (v.mul x z) (v.mul y z)
  pub zero-mul : (x : v.V) → v.mul v.zero_V x ≡ v.zero_V
  pub mul-zero : (x : v.V) → v.mul x v.zero_V ≡ v.zero_V
  pub above-split : (d k y : v.V) → v.above d k ≡ true → v.above y k ≡ false → v.above d y ≡ true

-- `_SM120_MQA_LOGITS_MAX_SCORE_BYTES`
abbrev pub max_score_bytes : ℕ
max_score_bytes = 64 * 1024 * 1024

-- `_fp8_mqa_logits_head_chunk_size`
unfoldable pub head_chunk_size : ℕ → ℕ → ℕ → ℕ
head_chunk_size seq_len seq_len_kv num_heads =
    let score_elems_per_head = max 1 (seq_len * seq_len_kv) in
    let max_heads = max_score_bytes / (score_elems_per_head * 4) in
    max 1 (min (min 8 num_heads) max_heads)

-- `_fp8_mqa_logits_k_chunk_size`
unfoldable pub k_chunk_size : ℕ → ℕ → ℕ → ℕ
k_chunk_size seq_len seq_len_kv head_chunk =
    let score_elems_per_key = max 1 (seq_len * head_chunk) in
    let max_keys = max_score_bytes / (score_elems_per_key * 4) in max 1 (min seq_len_kv max_keys)

module _ (v : Values) where
  open v use {V, zero_V, add, mul, relu, above}

  -- A column: a logit, and the index that it stands for.
  abbrev pub Lane : Type 0
  Lane = Logit V × Option ℕ

  abbrev pub pad_lane : Lane
  pad_lane = (neg_inf, none)

  unfoldable pub is_above : Logit V → Logit V → Bool
  is_above neg_inf t = false
  is_above (fin m) neg_inf = true
  is_above (fin m) (fin n) = above m n

  -- What `torch.topk(xs, k)` documents of the indices: `k` places, each once, of which none has a
  -- smaller value than a place that is left out.
  pub record IsTopk (k : ℕ) (xs : List (Logit V)) (indices : List ℕ) : Type 0 where
    pub size : length indices ≡ k
    pub left : List ℕ
    pub permutes : Perm (indices ++ left) (range (length xs))
    pub best :
        All
          (λ i. All (λ j. is_above (get_or xs j neg_inf) (get_or xs i neg_inf) ≡ false) left)
          indices

  pub record Topk : Type 0 where
    pub topk : ℕ → List (Logit V) → List ℕ
    pub topk-IsTopk : (k : ℕ) (xs : List (Logit V)) → k ≤ length xs → IsTopk k xs (topk k xs)

  -- `out.masked_fill_(~torch.isfinite(best_values), -1)`
  unfoldable pub mask_lane : Lane → Lane
  mask_lane (neg_inf, i) = (neg_inf, none)
  mask_lane (fin s, i) = (fin s, i)

  -- The loop's body after a chunk's logits: the chunk's top-k, and the top-k of that and the best.
  unfoldable pub merge_topk : Topk → ℕ → List (Logit V) → ℕ → List Lane → List Lane
  unfolding mask_lane
  merge_topk t topk_tokens chunk_logits k_start lanes =
      let chunk_topk = min topk_tokens (length chunk_logits) in
      let chunk_indices = t.topk chunk_topk chunk_logits in
      let chunk_lanes =
        map (λ i. (get_or chunk_logits i neg_inf, some (i + k_start))) chunk_indices in
      let candidates = lanes ++ chunk_lanes in
      let selected = t.topk topk_tokens (map (λ l. l.0) candidates) in
      map (λ i. mask_lane (get_or candidates i pad_lane)) selected

  -- The best values and indices before the loop
  unfoldable pub no_lanes : ℕ → List Lane
  no_lanes topk_tokens = replicate topk_tokens pad_lane

  -- A sum over `i`, ..., `i + n - 1`: `tl.sum`, `.sum(dim=0)`
  unfoldable pub total : (ℕ → V) → ℕ → ℕ → V
  total f zero i = zero_V
  total f (suc n) i = add (f i) (total f n (suc i))

  -- `torch.matmul` of a query's row and a key's, of `n` dimensions
  unfoldable pub dot : ℕ → (ℕ → V) → (ℕ → V) → V
  unfolding total
  dot n q k = total (λ d. mul (q d) (k d)) n 0

  module _ (head_dim : ℕ) (q : ℕ → ℕ → V) (k_values : ℕ → ℕ → V) (k_scales : ℕ → V)
      (weights : ℕ → V) (seq_len seq_len_kv num_heads : ℕ) where
    -- `scores.relu_(); scores.mul_(head_weights)` for one head and key
    unfoldable pub head_score : ℕ → ℕ → V
    unfolding dot
    head_score head key =
        let k_f32 = λ (d : ℕ). mul (k_values key d) (k_scales key) in
        mul (relu (dot head_dim (q head) k_f32)) (weights head)

    -- `scores[0] if scores.shape[0] == 1 else scores.sum(dim=0)`
    unfoldable pub chunk_score : ℕ → ℕ → ℕ → V
    unfolding head_score total
    chunk_score key n head =
        if n == 1 then head_score head key else total (λ h. head_score h key) n head

    -- The loop over chunks of heads, for one key.
    unfoldable pub add_heads : ℕ → ℕ → V
    unfolding chunk_score cdiv
    add_heads head_chunk key =
        for_range (cdiv num_heads head_chunk) 0
          (λ b logit.
            let head_start = b * head_chunk in
            let head_end = min (head_start + head_chunk) num_heads in
            add logit (chunk_score key (head_end - head_start) head_start))
          zero_V

    -- The mask of the keys from `ks` to `ke`
    unfoldable pub clean : ℕ → ℕ → ℕ → V → Logit V
    clean ks ke offset logit = if leb ks offset && ltb offset ke then fin logit else neg_inf

    -- `_fp8_mqa_logits_torch`: its loop over chunks of heads, each with a loop over chunks of keys.
    unfoldable pub add_keys : ℕ → ℕ → ℕ → (ℕ → V) → ℕ → V
    unfolding chunk_score k_chunk_size cdiv
    add_keys head_start n k_chunk logits =
        for_range (cdiv seq_len_kv k_chunk) 0
          (λ b row key.
            let k_start = b * k_chunk in
            let k_end = min (k_start + k_chunk) seq_len_kv in
            if leb k_start key && ltb key k_end
            then add (row key) (chunk_score key n head_start)
            else row key)
          logits

    unfoldable pub mqa_logits : Bool → ℕ → ℕ → ℕ → Logit V
    unfolding head_chunk_size k_chunk_size add_keys clean cdiv
    mqa_logits clean_logits ks ke key =
        let head_chunk = head_chunk_size seq_len seq_len_kv num_heads in
        let logits =
          for_range (cdiv num_heads head_chunk) 0
            (λ b row.
              let head_start = b * head_chunk in
              let head_end = min (head_start + head_chunk) num_heads in
              let n = head_end - head_start in
              add_keys head_start n (k_chunk_size seq_len seq_len_kv n) row)
            (λ (key' : ℕ). zero_V) in
        if clean_logits then clean ks ke key (logits key) else fin (logits key)

    -- `_fp8_mqa_logits_topk_torch`
    unfoldable pub topk_round : Topk → ℕ → ℕ → ℕ → ℕ → ℕ → ℕ → List Lane → List Lane
    unfolding add_heads clean merge_topk
    topk_round t topk_tokens ks ke head_chunk k_chunk b lanes =
        let k_start = b * k_chunk in
        let k_end = min (k_start + k_chunk) seq_len_kv in
        let chunk_logits =
          tabulate (λ key. clean ks ke key (add_heads head_chunk key)) (k_end - k_start) k_start in
        merge_topk t topk_tokens chunk_logits k_start lanes

    unfoldable pub mqa_topk : Topk → ℕ → ℕ → ℕ → List (Option ℕ)
    unfolding head_chunk_size k_chunk_size topk_round no_lanes cdiv
    mqa_topk t topk_tokens ks ke =
        let head_chunk = head_chunk_size seq_len seq_len_kv num_heads in
        let k_chunk = k_chunk_size seq_len seq_len_kv head_chunk in
        map (λ l. l.1)
          (for_range (cdiv seq_len_kv k_chunk) 0 (topk_round t topk_tokens ks ke head_chunk k_chunk)
            (no_lanes topk_tokens))

    -- `fp8_fp4_mqa_topk_indices`, where `enabled` is its test of the platform and of the query's scale.
    -- The result is whether it wrote the indices.
    unfoldable pub mqa_topk_indices :
        Topk → Bool → ℕ → ℕ → ℕ → List (Option ℕ) → Bool × List (Option ℕ)
    unfolding mqa_topk
    mqa_topk_indices t enabled topk_tokens ks ke topk_indices =
        if enabled then (true, mqa_topk t topk_tokens ks ke) else (false, topk_indices)
