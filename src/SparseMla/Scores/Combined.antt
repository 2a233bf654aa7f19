-- ===== src/SparseMla/Scores/Combined.antt =====
-- Scores by a matrix product, under the mask of compressed candidates and a sliding window.
use glm_5_2_gb.Common.{
  ℕ, zero, suc, ◌+◌, ◌-◌, ◌<◌, ◌≤◌, min, Bool, true, false, ◌&&◌, ◌||◌, ◌≡◌, ◌⊎◌, refl, sym, ap,
  ◌∙◌, ◌++◌, none, some, Gives, ◌>>=◌, arith, ltb, leb, lt→ltb, if◌then◌else◌,
}
use mathlib.Core.Path.{ap₂}
use glm_5_2_gb.Common.Int.{ℤ}
use glm_5_2_gb.Float.{Arith, IsExact}
use glm_5_2_gb.Softmax.{Logit, Row, Candidates, weight_sum, exp_logit, attention}
use glm_5_2_gb.SparseMla.Accumulate.{is_nonneg, dot}
use glm_5_2_gb.SparseMla.Accumulate.Loop.{candidates, score_of}
use glm_5_2_gb.SparseMla.Accumulate.Chunk.{candidates-add, candidates-shift}
use glm_5_2_gb.Sm12x.KvCache.Candidates.{candidates-bounded}
use glm_5_2_gb.SparseMla.Scores.Finished.{finish_materialized_lem}
use glm_5_2_gb.SparseMla.Scores.{
  FinishOptions, HeadCounts, active_heads, options_ok, combined_valid, build_valid_mask,
  matmul_attention,
}

module _ (a : Arith) (score : ℕ → a.S) (row : ℕ → Row a) where
  candidates-on :
      (valid valid' : ℕ → Bool) (n i : ℕ)
      → ((j : ℕ) → i ≤ j → j < i + n → valid j ≡ valid' j)
      → candidates a valid score row n i ≡ candidates a valid' score row n i
  unfolding candidates
  candidates-on valid valid' zero i same = refl
  candidates-on valid valid' (suc n) i same =
      rw
        (
          same i (omega arith) (omega arith),
          candidates-on valid valid' n (suc i) (λ j h h'. same j (omega arith) (omega arith)),
        )
        refl

module _ (a : Arith) (score : ℕ → a.S) (row : ℕ → Row a) where
  -- The compressed candidates below their length whose slot is not padding.
  unfoldable pub compressed : (ℕ → ℤ) → ℕ → ℕ → Candidates a
  compressed slot_ids topk_len num_compressed =
      candidates a (λ i. is_nonneg (slot_ids i)) score row (min num_compressed topk_len) 0

  -- The window's candidates below its length, after the compressed ones.
  unfoldable pub window : ℕ → ℕ → ℕ → Candidates a
  window swa_len num_compressed num_candidates =
      candidates a (λ i. true) (λ i. score (num_compressed + i)) (λ i. row (num_compressed + i))
        (min (num_candidates - num_compressed) swa_len) 0

  module _ (slot_ids : ℕ → ℤ) (topk_len swa_len num_compressed num_candidates : ℕ)
      (some_window : num_compressed ≤ num_candidates) where
    abbrev mask : ℕ → Bool
    mask = combined_valid slot_ids topk_len swa_len num_compressed

    and_comm : (b c : Bool) → (b && c) ≡ (c && b)
    and_comm true true = refl
    and_comm true false = refl
    and_comm false true = refl
    and_comm false false = refl

    or-false : (b : Bool) → (b || false) ≡ b
    or-false true = refl
    or-false false = refl

    first_part :
        candidates a mask score row num_compressed 0 ≡ compressed slot_ids topk_len num_compressed
    unfolding compressed combined_valid
    first_part =
        candidates-on a score row mask (λ j. is_nonneg (slot_ids j) && ltb j topk_len)
          num_compressed 0
          (λ j _ h.
            let here : ltb j num_compressed ≡ true = ground arith in
            rw here (or-false _ ∙ and_comm (ltb j topk_len) (is_nonneg (slot_ids j))))
        ∙ candidates-bounded a (λ j. is_nonneg (slot_ids j)) score row num_compressed topk_len

    second_part :
        candidates a mask score row (num_candidates - num_compressed) num_compressed
        ≡ window swa_len num_compressed num_candidates
    unfolding window combined_valid
    second_part =
        let n : ℕ = num_candidates - num_compressed in
        let later_score : ℕ → a.S = λ i. score (num_compressed + i) in
        let later_row : ℕ → Row a = λ i. row (num_compressed + i) in
        sym (candidates-shift a mask score row num_compressed n 0 num_compressed (omega arith))
        ∙ candidates-on a later_score later_row (λ i. mask (num_compressed + i))
            (λ i. true && ltb i swa_len) n 0
            (λ i _ h.
              let past : ltb (num_compressed + i) num_compressed ≡ false = ground arith in
              let back : num_compressed + i - num_compressed ≡ i = omega arith in
              rw (past, back) refl)
        ∙ candidates-bounded a (λ i. true) later_score later_row n swa_len

    -- The mask names the compressed candidates and then the window's.
    pub mask-candidates :
        candidates a mask score row num_candidates 0
        ≡ compressed slot_ids topk_len num_compressed
          ++ window swa_len num_compressed num_candidates
    mask-candidates =
        let sum : num_compressed + (num_candidates - num_compressed) ≡ num_candidates =
          omega arith in
        ap (λ n. candidates a mask score row n 0) (sym sum)
        ∙ sym (
            candidates-add a mask score row num_compressed (num_candidates - num_compressed) 0
              num_compressed (omega arith))
        ∙ ap₂ ◌++◌ first_part second_part

module _ (a : Arith) (head_dim : ℕ) (scale : a.S) (q kv : ℕ → Row a) (slot_ids : ℕ → ℤ)
    (topk_len swa_len num_compressed num_candidates : ℕ) where
  -- What a head attends to.
  unfoldable pub combined : ℕ → Candidates a
  combined head =
      let score = λ (i : ℕ). score_of a head_dim scale (q head) (kv i) in
      compressed a score kv slot_ids topk_len num_compressed
      ++ window a score kv swa_len num_compressed num_candidates

-- The options that the product's entry point passes on are accepted where its own are.
options_passed :
    (o : FinishOptions) (counts : HeadCounts)
    → options_ok o counts ≡ true
    → options_ok
        (record o { num_heads = some (active_heads o counts) })
        (record counts { of_scores = active_heads o counts })
      ≡ true
unfolding options_ok active_heads
options_passed o counts h = ground arith

options_heads :
    (o : FinishOptions) (counts : HeadCounts)
    → options_ok o counts ≡ true
    → (leb (active_heads o counts) counts.of_scores
        && leb (active_heads o counts) counts.of_output
        && leb (active_heads o counts) counts.of_sink)
      ≡ true
unfolding options_ok
options_heads o counts h = ground arith

module _ {a : Arith} (laws : IsExact a) (nan : a.W) (head_dim : ℕ) (scale : a.S) (q kv : ℕ → Row a)
    (attn_sink : ℕ → Logit a.S) (slot_ids : ℕ → ℤ)
    (topk_len swa_len num_compressed num_candidates : ℕ) where
  open a use {S, W, E, pos, add_W, zero_E}

  abbrev attended : ℕ → Candidates a
  attended head =
      combined a head_dim scale q kv slot_ids topk_len swa_len num_compressed num_candidates head

  -- By the product, with a mask that names these candidates.
  matmul_attention_lem :
      (next_power_of_2 : ℕ → ℕ) (o : FinishOptions) (counts : HeadCounts) (output : ℕ → Row a)
      (valid_tokens : ℕ → Bool) (head : ℕ)
      → candidates a valid_tokens
          (λ i. score_of a head_dim scale (q head) (kv i))
          kv
          num_candidates
          0
        ≡ attended head
      → head_dim ≤ next_power_of_2 head_dim
      → head_dim ≤ 1024
      → options_ok o counts ≡ true
      → head < counts.of_output
      → (o.candidate_block_size ≡ none)
        ⊎ (pos (add_W (weight_sum a (attended head)) (exp_logit a (attn_sink head))) ≡ true)
      → Gives
          (λ r.
            (d : ℕ)
            → d < head_dim
            → r head d ≡ (
                if ltb head (active_heads o counts)
                then attention a (attended head) (attn_sink head) d
                else zero_E))
          (matmul_attention a nan head_dim num_candidates scale q kv valid_tokens attn_sink
            next_power_of_2 o counts output)
  unfolding matmul_attention score_of active_heads
  matmul_attention_lem next_power_of_2 o counts output valid_tokens head names covers narrow ok
        stored weighted =
      rw (options_heads o counts ok, ← names)
        (finish_materialized_lem laws nan head_dim num_candidates
          (λ h i. a.mul_S (dot a head_dim (q h) (kv i)) scale) kv valid_tokens attn_sink
          next_power_of_2 (record o { num_heads = some (active_heads o counts) })
          (record counts { of_scores = active_heads o counts }) output head covers narrow
          (options_passed o counts ok) stored (rw names weighted))

  -- For at most 1024 dimensions, no more compressed candidates than candidates, any accepted
  -- options and any vLLM next_power_of_2 that is at least its argument, whatever a NaN is, and
  -- where blocks of candidates are not chosen or there is a candidate or a finite sink: with the
  -- mask that the builder gives, the product's entry point gives an active head the attention with
  -- its sink over the compressed candidates below their length whose slot is not padding, followed
  -- by the window's candidates below theirs, and the heads past the active ones zeros.
  pub matmul_combined_lem :
      (next_power_of_2 : ℕ → ℕ) (o : FinishOptions) (counts : HeadCounts) (output : ℕ → Row a)
      (mask : ℕ → Bool) (head : ℕ)
      → ((n : ℕ) → n ≤ next_power_of_2 n)
      → head_dim ≤ 1024
      → num_compressed ≤ num_candidates
      → options_ok o counts ≡ true
      → head < counts.of_output
      → (o.candidate_block_size ≡ none)
        ⊎ (pos (add_W (weight_sum a (attended head)) (exp_logit a (attn_sink head))) ≡ true)
      → Gives
          (λ r.
            (d : ℕ)
            → d < head_dim
            → r head d ≡ (
                if ltb head (active_heads o counts)
                then attention a (attended head) (attn_sink head) d
                else zero_E))
          (build_valid_mask next_power_of_2 slot_ids topk_len swa_len num_compressed num_candidates
              mask
            >>= λ valid_tokens.
                matmul_attention a nan head_dim num_candidates scale q kv valid_tokens attn_sink
                  next_power_of_2 o counts output)
  unfolding build_valid_mask combined
  matmul_combined_lem next_power_of_2 o counts output mask head covers narrow some_window ok stored
        weighted =
      let fits : leb num_compressed num_candidates ≡ true = ground arith in
      let score : ℕ → S = λ i. score_of a head_dim scale (q head) (kv i) in
      let width = covers num_candidates in
      rw fits (
        matmul_attention_lem next_power_of_2 o counts output _ head
          (candidates-on a score kv _ (combined_valid slot_ids topk_len swa_len num_compressed)
              num_candidates 0
              (λ j _ h.
                let wide : j < next_power_of_2 num_candidates = omega arith in
                let inside : j < num_candidates = omega arith in
                rw (lt→ltb j (next_power_of_2 num_candidates) wide, lt→ltb j num_candidates inside)
                  refl)
            ∙ mask-candidates a score kv slot_ids topk_len swa_len num_compressed num_candidates
                some_window)
          (covers head_dim) narrow ok stored weighted)
