-- ===== src/SparseMla/Accumulate/Entry.antt =====
-- `accumulate_gathered_sparse_mla_attention_chunk` of kernels/sparse_mla_kernels.py, for one token: a
-- grid of heads. What it asserts of shapes is its type, and the queries' heads.
use glm_5_2_gb.Common.{
  ℕ, ◌<◌, ◌≤◌, min, true, ◌≡◌, Option, some, ◌>>◌, guard, Gives, ◌++◌, arith, ltb, leb, lt→ltb,
  if◌then◌else◌,
}
use glm_5_2_gb.Common.Int.{ℤ}
use glm_5_2_gb.Float.{Arith, IsExact}
use glm_5_2_gb.Softmax.{State, Row, Candidates}
use glm_5_2_gb.Softmax.Laws.{Holds}
use glm_5_2_gb.SparseMla.Accumulate.{local_eff, accumulate_gathered_attention_chunk}
use glm_5_2_gb.SparseMla.Accumulate.Loop.{candidates, score_of}
use glm_5_2_gb.SparseMla.Accumulate.Chunk.{gathered_valid, gathered-Holds}

unfoldable pub gathered_entry :
    (a : Arith)
    → (ℕ → ℕ)
    → (head_dim q_heads num_heads : ℕ) → a.S
    → (ℕ → Row a)
    → (ℕ → Row a)
    → Option (ℕ → ℤ)
    → (valid_len num_candidates candidate_offset : ℕ) → (ℕ → State a)
    → Option (ℕ → State a)
unfolding accumulate_gathered_attention_chunk
gathered_entry a next_power_of_2 head_dim q_heads num_heads scale q kv slot_ids valid_len
      num_candidates candidate_offset sts =
    do
      guard (leb num_heads q_heads)
      let block_d = min 1024 (next_power_of_2 head_dim)
      some (λ head.
          if ltb head num_heads
          then accumulate_gathered_attention_chunk a head_dim block_d scale (q head) kv slot_ids
              valid_len num_candidates candidate_offset (sts head)
          else sts head)

-- For at most 1024 dimensions, no more heads than the queries have, and any vLLM next_power_of_2
-- that is at least its argument: reading gathered rows, the entry point does not fail, and it adds
-- to the candidates that a head's state stands for those below the valid length, of those whose
-- slot is not negative if there are slots.
pub gathered_entry-Holds :
    {a : Arith} (laws : IsExact a) (next_power_of_2 : ℕ → ℕ)
    → ((n : ℕ) → n ≤ next_power_of_2 n)
    → (head_dim q_heads num_heads : ℕ) (scale : a.S) (q kv : ℕ → Row a) (slot_ids : Option (ℕ → ℤ))
      (valid_len num_candidates offset : ℕ) (sts : ℕ → State a) (head : ℕ) (xs : Candidates a)
    → head_dim ≤ 1024
    → num_heads ≤ q_heads
    → head < num_heads
    → Holds a head_dim xs (sts head)
    → Gives
        (λ sts'.
          Holds a head_dim
            (xs
              ++ candidates a
                  (gathered_valid slot_ids)
                  (λ i. score_of a head_dim scale (q head) (kv i))
                  kv
                  (local_eff num_candidates valid_len offset)
                  0)
            (sts' head))
        (gathered_entry a next_power_of_2 head_dim q_heads num_heads scale q kv slot_ids valid_len
          num_candidates offset sts)
unfolding gathered_entry
gathered_entry-Holds laws next_power_of_2 above head_dim q_heads num_heads scale q kv slot_ids
      valid_len num_candidates offset sts head xs narrow enough real h =
    let accepted : leb num_heads q_heads ≡ true = ground arith in
    let wide : head_dim ≤ next_power_of_2 head_dim = above head_dim in
    rw (accepted, lt→ltb head num_heads real)
      (gathered-Holds laws head_dim (min 1024 (next_power_of_2 head_dim)) (omega arith) scale
        (q head) kv slot_ids valid_len num_candidates offset xs (sts head) h)
