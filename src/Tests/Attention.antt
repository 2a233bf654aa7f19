-- ===== src/Tests/Attention.antt =====
-- The attention kernels on two candidates and a padding index, in the tropical arithmetic.
use native.Mathlib.Nat.{le_refl}
use glm_5_2_gb.Common.{
  ℕ, zero, suc, ◌+◌, min, true, ◌≡◌, refl, Option, none, some, [], ◌++◌, Gives, arith, ltb,
  if◌then◌else◌,
}
use glm_5_2_gb.Common.Int.{ℤ, pos, negsuc}
use glm_5_2_gb.Float.Tropical.{tropical, tropical-IsExact}
use glm_5_2_gb.Softmax.{
  neg_inf, fin, State, Row, Candidates, blank, log_sum_exp, max_logit, weight_sum, exp_logit,
}
use glm_5_2_gb.Softmax.Laws.{Holds, blank-Holds}
use glm_5_2_gb.SparseMla.Finish.{finish_attention_state}
use glm_5_2_gb.SparseMla.Accumulate.Entry.{gathered_entry, gathered_entry-Holds}
use glm_5_2_gb.SparseMla.Finish.Entries.{
  merge_two_entry, merge_single_entry, finish_gathered_entry, finish_two_entry,
  finish_with_sink_entry, merge_two_entry-IsAttention, merge_single_entry-IsAttention,
  finish_gathered_entry_lem, finish_two_entry-IsAttention, finish_with_sink_entry-IsAttention,
}
use glm_5_2_gb.SparseMla.Finish.Laws.{IsAttention, finish_state_lem}
use glm_5_2_gb.SparseMla.Accumulate.{
  accumulate_indexed_attention_chunk, is_nonneg, is_below, local_eff, accumulate_indexed_chunk,
}
use glm_5_2_gb.SparseMla.Accumulate.Loop.{candidates, score_of}
use glm_5_2_gb.SparseMla.Accumulate.Heads.{single, accumulate_indexed_chunk-eq}
use glm_5_2_gb.SparseMla.Accumulate.Chunk.{
  indexed_candidates, indexed_chunks-Holds, indexed-Holds, gathered_valid,
}
use glm_5_2_gb.Dcp.Recombine.{recombine}
use glm_5_2_gb.Dcp.Recombine.Laws.{recombine_lem}
use glm_5_2_gb.Sm12x.Prefill.{flash_mla_sparse_fwd, value_dim, sink_of, lens_of}
use glm_5_2_gb.Sm12x.Prefill.Laws.{flash_mla_sparse_fwd_lem}

-- A row that is `v` in its first dimension, and 0.0 in the others.
abbrev unit_row : ℕ → Row tropical
unit_row v d = if ltb d 1 then some (pos v) else none

abbrev query : ℕ → Row tropical
query head = unit_row 2

abbrev rows : ℕ → Row tropical
rows i = unit_row i

-- Row 3, padding, row 1, then padding.
abbrev picks : ℕ → ℤ
picks zero = pos 3
picks (suc zero) = negsuc 0
picks (suc (suc zero)) = pos 1
picks i = negsuc 0

flash_mla_sparse_fwd_example :
    let xs =
      indexed_candidates tropical 512
        (pos 1)
        4
        (query 0)
        rows
        picks
        (min 3 (lens_of tropical none 3)) in
    let r = flash_mla_sparse_fwd tropical (λ n. n) 1 512 4 3 query rows picks (pos 1) none none in
    Gives (IsAttention tropical value_dim xs (sink_of tropical none 0)) (r.out 0)
    × (r.max_logits 0 ≡ max_logit tropical xs neg_inf)
    × (r.lse 0 ≡ log_sum_exp tropical xs)
flash_mla_sparse_fwd_example =
    flash_mla_sparse_fwd_lem tropical-IsExact (λ n. n) le_refl 1 512 4 3 query rows picks (pos 1)
      none none 0 (omega arith) (omega arith) (omega arith)

-- Two chunks of two candidates.
indexed_chunks-Holds_example :
    Holds tropical 2
      ([] ++ indexed_candidates tropical 2 (pos 1) 4 (query 0) rows picks (local_eff 4 3 0))
      (accumulate_indexed_attention_chunk tropical 2 2
        (pos 1)
        4
        (query 0)
        rows
        (λ i. picks (2 + i))
        3
        2
        2
        (accumulate_indexed_attention_chunk tropical 2 2
          (pos 1)
          4
          (query 0)
          rows
          picks
          3
          2
          0
          (blank tropical)))
indexed_chunks-Holds_example =
    indexed_chunks-Holds tropical-IsExact 2 2 (omega arith) (pos 1) 4 (query 0) rows picks 3 2 2 []
      (blank tropical) (blank-Holds tropical-IsExact)

abbrev after_two : State tropical
after_two =
    accumulate_indexed_attention_chunk tropical 2 2 (pos 1) 4 (query 0) rows picks 3 3 0
      (blank tropical)

abbrev seen : Candidates tropical
seen = [] ++ indexed_candidates tropical 2 (pos 1) 4 (query 0) rows picks (local_eff 3 3 0)

after_two-Holds : Holds tropical 2 seen after_two
after_two-Holds =
    indexed-Holds tropical-IsExact 2 2 (omega arith) (pos 1) 4 (query 0) rows picks 3 3 0 []
      (blank tropical) (blank-Holds tropical-IsExact)

indexed_example : Holds tropical 2 seen after_two
indexed_example =
    indexed-Holds tropical-IsExact 2 2 (omega arith) (pos 1) 4 (query 0) rows picks 3 3 0 []
      (blank tropical) (blank-Holds tropical-IsExact)

gathered_entry_example :
    Gives
      (λ sts'.
        Holds tropical 2
          ([]
            ++ candidates tropical
                (gathered_valid (some picks))
                (λ i. score_of tropical 2 (pos 1) (query 1) (rows i))
                rows
                (local_eff 3 3 0)
                0)
          (sts' 1))
      (gathered_entry tropical
        (λ n. n)
        2
        3
        2
        (pos 1)
        query
        rows
        (some picks)
        3
        3
        0
        (λ head. blank tropical))
gathered_entry_example =
    gathered_entry-Holds tropical-IsExact (λ n. n) le_refl 2 3 2 (pos 1) query rows (some picks) 3 3
      0 (λ head. blank tropical) 1 [] (omega arith) (omega arith) (omega arith)
      (blank-Holds tropical-IsExact)

-- Nine heads, in two programs of eight.
indexed_chunk-eq_example :
    accumulate_indexed_chunk tropical 2 2
      (pos 1)
      9
      4
      query
      rows
      picks
      3
      3
      0
      (λ head. blank tropical)
      8
    ≡ (if ltb 8 9
        then single tropical 2 2 (pos 1) 4 rows picks 9 query 3 3 0 8 (blank tropical)
        else blank tropical)
indexed_chunk-eq_example =
    accumulate_indexed_chunk-eq tropical 2 2 (pos 1) 4 rows picks 9 query 3 3 0
      (λ head. blank tropical) 8

after_two_finished :
    let (out, lse) = finish_attention_state tropical after_two in
    IsAttention tropical 2 seen neg_inf out × (lse ≡ log_sum_exp tropical seen)
after_two_finished = finish_state_lem tropical-IsExact after_two after_two-Holds

finish_gathered_entry_example :
    let (out, l) =
      finish_gathered_entry tropical (λ n. n) 2 2 (λ head. after_two) query (λ head. neg_inf) 1 in
    IsAttention tropical 2 seen neg_inf out × (l ≡ log_sum_exp tropical seen)
finish_gathered_entry_example =
    finish_gathered_entry_lem tropical-IsExact (λ n. n) le_refl 2 2 (omega arith)
      (λ head. after_two) query (λ head. neg_inf) 1 seen (omega arith) after_two-Holds

finish_with_sink_entry_example :
    Gives (IsAttention tropical 2 seen (fin (pos 4))) (
      finish_with_sink_entry tropical
        (λ n. n)
        2
        2
        (λ head. after_two)
        (λ head. fin (pos 4))
        query
        1)
finish_with_sink_entry_example =
    finish_with_sink_entry-IsAttention tropical-IsExact (λ n. n) le_refl 2 2 (omega arith)
      (λ head. after_two) (λ head. fin (pos 4)) query 1 seen (omega arith) after_two-Holds

finish_two_entry_example : Gives (IsAttention tropical 2 (seen ++ seen) neg_inf) (
    finish_two_entry tropical
      (λ n. n)
      2
      2
      (λ head. after_two)
      (λ head. after_two)
      (λ head. neg_inf)
      query
      1)
finish_two_entry_example =
    finish_two_entry-IsAttention tropical-IsExact (λ n. n) le_refl 2 2 (omega arith)
      (λ head. after_two) (λ head. after_two) (λ head. neg_inf) query 1 seen seen (omega arith)
      after_two-Holds after_two-Holds

sink_has_weight : (w : Option ℤ) → tropical.pos (tropical.add_W w (some (pos 0))) ≡ true
sink_has_weight none = refl
sink_has_weight (some w) = refl

nothing_finished :
    let (out, lse) = finish_attention_state tropical (blank tropical) in
    IsAttention tropical 2 [] neg_inf out × (lse ≡ log_sum_exp tropical [])
nothing_finished = finish_state_lem tropical-IsExact (blank tropical) (blank-Holds tropical-IsExact)

merge_two_entry_example : Gives (IsAttention tropical 2 (seen ++ []) (fin (pos 0))) (
    merge_two_entry tropical
      (λ n. n)
      2
      2
      (λ head. (finish_attention_state tropical after_two).0)
      (λ head. (finish_attention_state tropical after_two).1)
      (λ head. (finish_attention_state tropical (blank tropical)).0)
      (λ head. (finish_attention_state tropical (blank tropical)).1)
      (λ head. fin (pos 0))
      query
      1)
unfolding exp_logit
merge_two_entry_example =
    merge_two_entry-IsAttention tropical-IsExact (λ n. n) le_refl 2 2 (omega arith) _ _ _ _
      (λ head. fin (pos 0)) query 1 seen [] (omega arith) after_two_finished.0 nothing_finished.0
      after_two_finished.1 nothing_finished.1 (sink_has_weight (weight_sum tropical (seen ++ [])))

merge_single_entry_example : Gives (IsAttention tropical 2 seen (fin (pos 0))) (
    merge_single_entry tropical
      (λ n. n)
      2
      2
      (λ head. (finish_attention_state tropical after_two).0)
      (λ head. (finish_attention_state tropical after_two).1)
      (λ head. fin (pos 0))
      query
      1)
unfolding exp_logit
merge_single_entry_example =
    merge_single_entry-IsAttention tropical-IsExact (λ n. n) le_refl 2 2 (omega arith) _ _
      (λ head. fin (pos 0)) query 1 seen (omega arith) after_two_finished.0 after_two_finished.1
      (sink_has_weight (weight_sum tropical seen))

seen_has_weight : tropical.pos (weight_sum tropical (seen ++ seen)) ≡ true
unfolding weight_sum indexed_candidates candidates local_eff is_nonneg is_below
seen_has_weight = refl

recombine_example :
    Gives
      (λ r.
        IsAttention tropical 2 (seen ++ seen) neg_inf r.0
        × (r.1 ≡ log_sum_exp tropical (seen ++ seen)))
      (recombine tropical
        (finish_attention_state tropical after_two).0
        (finish_attention_state tropical after_two).1
        (finish_attention_state tropical after_two).0
        (finish_attention_state tropical after_two).1)
recombine_example =
    recombine_lem tropical-IsExact seen seen _ _ _ _ after_two_finished.0 after_two_finished.0
      after_two_finished.1 after_two_finished.1 seen_has_weight
