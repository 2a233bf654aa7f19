-- ===== src/Tests/D512.antt =====
-- The D512 entry points on three indices of which one is padding, in the tropical arithmetic, with a
-- NaN that no result shows.
use native.Mathlib.Nat.{le_refl}
use glm_5_2_gb.Common.{
  ℕ, zero, suc, min, true, ◌≡◌, refl, none, some, Gives, arith, ltb, if◌then◌else◌,
}
use glm_5_2_gb.Common.Int.{ℤ, pos, negsuc}
use glm_5_2_gb.Float.Tropical.{tropical, tropical-IsExact}
use glm_5_2_gb.Softmax.{neg_inf, Row, blank}
use glm_5_2_gb.Softmax.Laws.{Holds}
use glm_5_2_gb.SparseMla.D512.Named.{named_candidates}
use glm_5_2_gb.SparseMla.D512.Chunks.{accumulate_split-Holds, accumulate_chunked-Holds}
use glm_5_2_gb.SparseMla.D512.{BlockSizes, Buffers, sizes_ok, accumulate_split, accumulate_chunked}

abbrev query : ℕ → Row tropical
query head d = if ltb d 1 then some (pos 2) else none

abbrev rows : ℕ → Row tropical
rows i d = if ltb d 1 then some (pos i) else none

abbrev picks : ℕ → ℤ
picks zero = pos 3
picks (suc zero) = negsuc 0
picks (suc (suc i)) = pos 1

abbrev sizes : BlockSizes
sizes = record { head_block_size = 8; candidate_block_size = 32; value_block_size = 128 }

abbrev buffers : Buffers tropical
buffers = record { scores = λ head cand. neg_inf; states = λ head. blank tropical }

sizes_accepted : sizes_ok sizes ≡ true
unfolding sizes_ok
sizes_accepted = refl

accumulate_split-Holds_example :
    Gives
      (λ r.
        Holds tropical 512
          (named_candidates tropical 512 (pos 1) 4 (query 0) rows picks (min 3 3))
          (r.states 0))
      (accumulate_split tropical
        (some (pos 99))
        512
        1
        4
        (pos 1)
        query
        rows
        picks
        3
        3
        (λ n. n)
        sizes
        buffers)
accumulate_split-Holds_example =
    accumulate_split-Holds tropical-IsExact (some (pos 99)) 512 1 4 (pos 1) query rows (λ n. n)
      le_refl sizes sizes_accepted refl picks 3 3 buffers 0 (omega arith) (omega arith)

-- Two chunks of two and of one.
accumulate_chunked-Holds_example :
    Gives
      (λ r.
        Holds tropical 512
          (named_candidates tropical 512 (pos 1) 4 (query 0) rows picks (min 3 3))
          (r.0 0))
      (accumulate_chunked tropical
        (some (pos 99))
        512
        1
        4
        (pos 1)
        query
        rows
        (λ n. n)
        sizes
        picks
        3
        3
        2
        (λ head. blank tropical)
        buffers)
accumulate_chunked-Holds_example =
    accumulate_chunked-Holds tropical-IsExact (some (pos 99)) 512 1 4 (pos 1) query rows (λ n. n)
      le_refl sizes sizes_accepted refl picks 3 3 2 (omega arith) (omega arith)
      (λ head. blank tropical) buffers 0 (omega arith)
