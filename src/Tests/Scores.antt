-- ===== src/Tests/Scores.antt =====
-- The entry points on materialized scores on three candidates of which one is not valid, in the
-- tropical arithmetic.
use native.Mathlib.Nat.{le_refl}
use glm_5_2_gb.Common.{
  ℕ, zero, suc, ◌<◌, true, false, Bool, ◌≡◌, refl, inr, none, some, Gives, ◌>>=◌, arith, ltb,
  if◌then◌else◌,
}
use glm_5_2_gb.Common.Int.{ℤ, pos, negsuc}
use glm_5_2_gb.Float.Tropical.{tropical, tropical-IsExact}
use glm_5_2_gb.Softmax.{Logit, fin, Row, attention, weight_sum, exp_logit}
use glm_5_2_gb.SparseMla.Accumulate.{is_nonneg}
use glm_5_2_gb.SparseMla.Accumulate.Loop.{candidates}
use glm_5_2_gb.SparseMla.Scores.Finished.{finish_materialized_lem}
use glm_5_2_gb.SparseMla.Scores.Combined.{combined, compressed, window, matmul_combined_lem}
use glm_5_2_gb.SparseMla.Scores.{
  FinishOptions, HeadCounts, active_heads, options_ok, finish_materialized, build_valid_mask,
  matmul_attention, is_value_block, is_candidate_block,
}

abbrev rows : ℕ → Row tropical
rows i d = if ltb d 1 then some (pos i) else none

abbrev scores : ℕ → ℕ → ℤ
scores head i = pos (suc i)

abbrev valid : ℕ → Bool
valid zero = true
valid (suc zero) = false
valid (suc (suc i)) = true

abbrev sink : ℕ → Logit ℤ
sink head = fin (pos 1)

abbrev out : ℕ → Row tropical
out head d = none

-- Blocks of candidates, for one of two heads.
abbrev by_candidates : FinishOptions
by_candidates = record {
  num_heads = some 1;
  head_block_size = 1;
  value_block_size = none;
  candidate_block_size = some 16;
}

abbrev two_heads : HeadCounts
two_heads = record { of_scores = 2; of_output = 2; of_sink = 2 }

by_candidates_accepted : options_ok by_candidates two_heads ≡ true
unfolding options_ok is_value_block is_candidate_block active_heads
by_candidates_accepted = refl

finish_materialized_lem_example :
    Gives
      (λ r.
        (d : ℕ)
        → d < 2
        → r 0 d ≡ (
            if ltb 0 (active_heads by_candidates two_heads)
            then attention tropical (candidates tropical valid (scores 0) rows 3 0) (sink 0) d
            else none))
      (finish_materialized tropical
        (some (pos 99))
        2
        3
        scores
        rows
        valid
        sink
        (λ n. n)
        by_candidates
        two_heads
        out)
unfolding weight_sum candidates exp_logit
finish_materialized_lem_example =
    finish_materialized_lem tropical-IsExact (some (pos 99)) 2 3 scores rows valid sink (λ n. n)
      by_candidates two_heads out 0 (omega arith) (omega arith) by_candidates_accepted (omega arith)
      (inr refl)

-- One compressed candidate of two, and a window of one.
abbrev slots : ℕ → ℤ
slots zero = pos 7
slots (suc i) = negsuc 0

matmul_combined_lem_example :
    Gives
      (λ r.
        (d : ℕ)
        → d < 2
        → r 1 d ≡ (
            if ltb 1 (active_heads by_candidates two_heads)
            then attention tropical
                (combined tropical 2 (pos 1) rows rows slots 2 1 2 3 1)
                (sink 1)
                d
            else none))
      (build_valid_mask (λ n. n) slots 2 1 2 3 valid >>= λ valid_tokens.
        matmul_attention tropical
          (some (pos 99))
          2
          3
          (pos 1)
          rows
          rows
          valid_tokens
          sink
          (λ n. n)
          by_candidates
          two_heads
          out)
unfolding weight_sum combined compressed candidates is_nonneg window exp_logit
matmul_combined_lem_example =
    matmul_combined_lem tropical-IsExact (some (pos 99)) 2 (pos 1) rows rows sink slots 2 1 2 3
      (λ n. n) by_candidates two_heads out valid 1 le_refl (omega arith) (omega arith)
      by_candidates_accepted (omega arith) (inr refl)
