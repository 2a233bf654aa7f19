-- ===== src/Sm12x/Decode/Laws.antt =====
-- The decode gives the reference attention over the candidates that the indices select, by either path.
use glm_5_2_gb.Common.{
  ℕ, ◌<◌, ◌≤◌, min, max, Bool, true, false, ltb, ◌&&◌, ◌≡◌, refl, sym, ◌∙◌, arith, Option, none,
  some, Gives, for_range, if◌then◌else◌,
}
use glm_5_2_gb.Common.Int.{ℤ}
use glm_5_2_gb.Float.{Arith, IsExact}
use glm_5_2_gb.Softmax.{Logit, State, Row, Candidates, blank, log_sum_exp}
use glm_5_2_gb.Softmax.Laws.{Holds}
use glm_5_2_gb.SparseMla.Accumulate.{cdiv, row_of}
use glm_5_2_gb.SparseMla.Accumulate.Lanes.{lanes-eq}
use glm_5_2_gb.SparseMla.Accumulate.Loop.{candidates, score_of, store-Holds}
use glm_5_2_gb.SparseMla.Accumulate.Chunk.{indexed_candidates}
use glm_5_2_gb.SparseMla.Finish.Laws.{IsAttention, finish_with_sink-IsAttention}
use glm_5_2_gb.Sm12x.Prefill.{value_dim, sink_of, lens_of}
use glm_5_2_gb.Sm12x.Prefill.Laws.{safe_lse_lem, Holds-narrow}
use glm_5_2_gb.Sm12x.KvCache.{
  fp8ds_entry, EntryCasts, is_slot, entry_row, gather_dequant, fused_tile, fused_attn,
  materialized_body, materialized_attn,
}
use glm_5_2_gb.Sm12x.KvCache.Candidates.{candidates-bounded}
use glm_5_2_gb.Sm12x.KvCache.Fused.{fused_tiles-Holds}
use glm_5_2_gb.Sm12x.KvCache.Grid.{grid-stored}
use glm_5_2_gb.Sm12x.KvCache.Materialized.{
  one_body, materialized-eq, one_body-Holds, gather_dequant-eq,
}
use glm_5_2_gb.Sm12x.Decode.{
  gathered_is_valid, fused_head_block, materialized_head_block, fused_attend,
  materialized_accumulate, flash_mla_with_kvcache,
}

-- Outputs that are the same attention agree.
outputs-agree :
    (a : Arith) (dim : ℕ) (xs : Candidates a) (sink : Logit a.S) (m m' : Option (Row a))
    → Gives (IsAttention a dim xs sink) m
    → Gives (IsAttention a dim xs sink) m'
    → Gives (λ o. Gives (λ o'. (d : ℕ) → d < dim → o d ≡ o' d) m') m
outputs-agree a dim xs sink none m' g g' = absurd g
outputs-agree a dim xs sink (some o) none g g' = absurd g'
outputs-agree a dim xs sink (some o) (some o') g g' = λ d h. g d h ∙ sym (g' d h)

module _ {a : Arith} (laws : IsExact a) (casts : EntryCasts a) (next_power_of_2 : ℕ → ℕ)
    (np_le : (n : ℕ) → n ≤ next_power_of_2 n) (h_q : ℕ) (q : ℕ → Row a) (cache : ℕ → ℕ)
    (stride_cache_s total_slots topk : ℕ) (indices : ℕ → ℤ) (scale : a.S) where
  -- The row of a slot, and the candidates that the indices name among the first `n`.
  abbrev pub slot_row : ℕ → Row a
  slot_row slot = entry_row a casts fp8ds_entry cache stride_cache_s slot

  abbrev pub chosen : ℕ → ℕ → Candidates a
  chosen head n = indexed_candidates a 576 scale total_slots (q head) slot_row indices n

  fused-Holds :
      (lens head : ℕ)
      → head < h_q
      → Holds a 512 (chosen head (min topk lens)) (
          fused_attend a casts next_power_of_2 h_q q cache stride_cache_s total_slots topk indices
            lens scale
            (λ _. blank a)
            head)
  unfolding fused_attend fused_attn fused_head_block
  fused-Holds lens head real =
      let body =
        fused_tile a casts fp8ds_entry cache stride_cache_s scale 32 512 64 total_slots indices topk
          lens in
      let head_block = fused_head_block next_power_of_2 h_q in
      let run = λ (row : Row a). for_range (cdiv topk 32) 0 (body row) (blank a) in
      let lanes = λ (queries : ℕ → Row a).
        for_range (cdiv topk 32) 0
          (λ tile (sts : ℕ → State a) lane. body (queries lane) tile (sts lane))
          (λ lane. blank a) in
      rw
        (grid-stored a 512 512 scale head_block h_q q run lanes
          (λ queries lane.
            lanes-eq (λ tile (sts : ℕ → State a) l. body (queries l) tile (sts l))
              (body (queries lane)) lane (λ i sts. refl) (cdiv topk 32) 0 (λ l. blank a))
          (λ _. blank a) head real (omega arith))
        (store-Holds laws (blank a) (run (q head)) (omega arith) (
          fused_tiles-Holds laws casts fp8ds_entry cache stride_cache_s scale 32 512 64 total_slots
            indices topk lens (omega arith) (omega arith) (q head) (omega arith)))

  module _ (empty : ℕ → Row a) where
    abbrev gathered : ℕ → Row a
    gathered k d =
        gather_dequant a casts fp8ds_entry cache stride_cache_s (max 64 (next_power_of_2 576))
          total_slots indices empty k d

    and_left : (b c : Bool) → (b && c) ≡ true → b ≡ true
    and_left true c h = refl
    and_left false c h = h

    -- The host's mask lets a candidate through only if it is a slot.
    is_slot_of_valid :
        (topk_length : Option ℕ) (k : ℕ)
        → gathered_is_valid total_slots indices topk_length k ≡ true
        → is_slot total_slots (indices k) ≡ true
    unfolding gathered_is_valid
    is_slot_of_valid none k v = v
    is_slot_of_valid (some len) k v = and_left (is_slot total_slots (indices k)) (ltb k len) v

    masked-chosen :
        (topk_length : Option ℕ) (head : ℕ)
        → candidates a
            (gathered_is_valid total_slots indices topk_length)
            (λ i. score_of a 576 scale (q head) (slot_row (row_of (indices i))))
            (λ i. slot_row (row_of (indices i)))
            topk
            0
          ≡ chosen head (min topk (lens_of a topk_length topk))
    unfolding gathered_is_valid is_slot indexed_candidates lens_of
    masked-chosen none head = let all : min topk topk ≡ topk = omega arith in rw all refl
    masked-chosen (some len) head = candidates-bounded a _ _ _ topk len

    materialized-Holds :
        (topk_length : Option ℕ) (head : ℕ)
        → head < h_q
        → Holds a 576 (chosen head (min topk (lens_of a topk_length topk))) (
            materialized_accumulate a casts next_power_of_2 h_q 576 q gathered
              (gathered_is_valid total_slots indices topk_length)
              topk
              scale
              (λ _. blank a)
              head)
    unfolding materialized_accumulate materialized_attn materialized_head_block
    materialized-Holds topk_length head real =
        let valid = gathered_is_valid total_slots indices topk_length in
        let block_d = min 1024 (next_power_of_2 576) in
        let fits : 576 ≤ block_d = omega (arith, np_le 576) in
        let wide : 576 ≤ max 64 (next_power_of_2 576) = omega (arith, np_le 576) in
        let head_block = materialized_head_block h_q in
        let some_heads : 0 < head_block = ground arith in
        let run = λ (row : Row a).
          for_range topk 0 (one_body laws scale 576 block_d fits gathered valid row) (blank a) in
        let lanes = λ (queries : ℕ → Row a).
          for_range topk 0 (materialized_body a scale 576 block_d queries gathered valid)
            (λ lane. blank a) in
        rw
          (grid-stored a 576 block_d scale head_block h_q q run lanes
            (λ queries lane.
              materialized-eq laws scale 576 block_d fits queries gathered valid topk lane
                (λ l. blank a))
            (λ _. blank a) head real some_heads)
          (store-Holds laws (blank a) (run (q head)) fits (
            rw (← masked-chosen topk_length head) (
              one_body-Holds laws scale 576 block_d fits (q head) gathered
                (λ i. slot_row (row_of (indices i))) valid topk
                (λ i d v inside.
                  gather_dequant-eq casts fp8ds_entry cache stride_cache_s
                    (max 64 (next_power_of_2 576)) total_slots indices empty i d
                    (is_slot_of_valid topk_length i v) inside wide))))

    either-Holds :
        (fused_enabled : Bool) (topk_length : Option ℕ) (head : ℕ)
        → head < h_q
        → Holds a value_dim (chosen head (min topk (lens_of a topk_length topk))) (
            (if fused_enabled
                then fused_attend a casts next_power_of_2 h_q q cache stride_cache_s total_slots
                    topk indices
                    (lens_of a topk_length topk)
                    scale
                    (λ _. blank a)
                else materialized_accumulate a casts next_power_of_2 h_q 576 q gathered
                    (gathered_is_valid total_slots indices topk_length)
                    topk
                    scale
                    (λ _. blank a))
              head)
    either-Holds true topk_length head real = fused-Holds (lens_of a topk_length topk) head real
    either-Holds false topk_length head real =
        Holds-narrow laws (omega arith) (materialized-Holds topk_length head real)

    -- For every real head, every cache and every index list, on the fused and on the materialized
    -- path, and for any vLLM next_power_of_2 that is at least its argument: the FP8 sparse decode
    -- gives no NaN, its 512 output dimensions are the softmax attention with the head's sink over
    -- the dequantized rows of the slots that the indices name below the valid length, and its lse
    -- is those candidates' logsumexp.
    pub flash_mla_with_kvcache_lem :
        (fused_enabled : Bool) (attn_sink : Option (ℕ → Logit a.S)) (topk_length : Option ℕ)
        (head : ℕ)
        → head < h_q
        → let xs =
            indexed_candidates a 576 scale total_slots
              (q head)
              (entry_row a casts fp8ds_entry cache stride_cache_s)
              indices
              (min topk (lens_of a topk_length topk)) in
          let r =
            flash_mla_with_kvcache a casts next_power_of_2 fused_enabled empty h_q q cache
              stride_cache_s total_slots topk indices scale attn_sink topk_length in
          Gives (IsAttention a value_dim xs (sink_of a attn_sink head)) (r.out head)
          × (r.lse head ≡ log_sum_exp a xs)
    unfolding flash_mla_with_kvcache
    flash_mla_with_kvcache_lem fused_enabled attn_sink topk_length head real =
        let holds = either-Holds fused_enabled topk_length head real in
        (
          finish_with_sink-IsAttention laws _ (sink_of a attn_sink head) holds,
          safe_lse_lem laws _ holds,
        )

    -- For every real head and for any vLLM next_power_of_2 that is at least its argument: the
    -- fused and the materialized path both give an output, the same in its 512 dimensions, and the
    -- same lse.
    pub flash_mla_with_kvcache_paths :
        (attn_sink : Option (ℕ → Logit a.S)) (topk_length : Option ℕ) (head : ℕ)
        → head < h_q
        → let run = λ (fused_enabled : Bool).
          flash_mla_with_kvcache a casts next_power_of_2 fused_enabled empty h_q q cache
            stride_cache_s total_slots topk indices scale attn_sink topk_length in
          Gives
            (λ o. Gives (λ o'. (d : ℕ) → d < value_dim → o d ≡ o' d) ((run false).out head))
            ((run true).out head)
          × ((run true).lse head ≡ (run false).lse head)
    flash_mla_with_kvcache_paths attn_sink topk_length head real =
        let (out, lse) = flash_mla_with_kvcache_lem true attn_sink topk_length head real in
        let (out', lse') = flash_mla_with_kvcache_lem false attn_sink topk_length head real in
        (outputs-agree a value_dim _ _ _ _ out out', lse ∙ sym lse')
