-- ===== src/SparseMla/Accumulate/Heads.antt =====
-- The multihead kernel and the choice of kernel: every head gets what the single-head kernel gives it.
use glm_5_2_gb.Common.{
  ℕ, zero, suc, ◌+◌, ◌*◌, ◌&&◌, ◌≡◌, refl, ◌∙◌, arith, ltb, leb, if◌then◌else◌, for_range,
  Bool-cases, inl, inr,
}
use glm_5_2_gb.Common.Int.{ℤ}
use glm_5_2_gb.Float.{Arith}
use glm_5_2_gb.SparseMla.Accumulate.Lanes.{run_head, block-eq}
use glm_5_2_gb.Softmax.{State, Row}
use glm_5_2_gb.SparseMla.Accumulate.{
  is_nonneg, is_below, local_eff, cdiv, accumulate_indexed_attention_chunk, indexed_body,
  multihead_body, accumulate_indexed_multihead, accumulate_indexed_chunk,
}

-- Two consecutive ranges of blocks.
ranges-join :
    {A : Type 0} (f : A → A) (x : A) (n i head num_heads : ℕ)
    → let y = if leb (i * 8) head && ltb head (i * 8 + 8) && ltb head num_heads then f x else x in
      (if leb (suc i * 8) head && ltb head ((suc i + n) * 8) && ltb head num_heads then f y else y)
      ≡ (if leb (i * 8) head && ltb head ((i + suc n) * 8) && ltb head num_heads then f x else x)
ranges-join f x n i head num_heads = ground arith

-- The blocks cover every head.
blocks-cover :
    {A : Type 0} (x y : A) (head num_heads : ℕ)
    → (if leb (0 * 8) head && ltb head ((0 + cdiv num_heads 8) * 8) && ltb head num_heads
        then x
        else y)
      ≡ (if ltb head num_heads then x else y)
unfolding cdiv
blocks-cover x y head num_heads = ground arith

module _ (a : Arith) (head_dim block_d : ℕ) (scale : a.S) (num_kv_rows : ℕ) (kv_flat : ℕ → Row a)
    (indices : ℕ → ℤ) where
  body-eq :
      (queries : ℕ → Row a) (lane i : ℕ) (lanes : ℕ → State a)
      → multihead_body a head_dim block_d scale num_kv_rows queries kv_flat indices i lanes lane
        ≡ indexed_body a head_dim block_d scale num_kv_rows
            (queries lane)
            kv_flat
            indices
            i
            (lanes lane)
  unfolding multihead_body indexed_body
  body-eq queries lane i lanes =
      elim (Bool-cases (is_nonneg (indices i) && is_below (indices i) num_kv_rows)) [
        | inl e ↦ rw e refl
        | inr e ↦ rw e refl
      ]

  module _ (num_heads : ℕ) (q : ℕ → Row a) (valid_len num_candidates offset : ℕ) where
    unfoldable pub single : ℕ → State a → State a
    single head st =
        accumulate_indexed_attention_chunk a head_dim block_d scale num_kv_rows (q head) kv_flat
          indices valid_len num_candidates offset st

    -- A program writes the real heads of its block.
    pub program-eq :
        (head_block b : ℕ) (sts : ℕ → State a) (head : ℕ)
        → accumulate_indexed_multihead a head_dim block_d scale head_block num_heads num_kv_rows q
            kv_flat indices valid_len num_candidates offset b sts head
          ≡ (if leb (b * head_block) head
                && ltb head (b * head_block + head_block)
                && ltb head num_heads
              then single head (sts head)
              else sts head)
    unfolding accumulate_indexed_multihead single accumulate_indexed_attention_chunk run_head
    program-eq head_block b sts head =
        block-eq a head_dim block_d scale
          (λ queries. multihead_body a head_dim block_d scale num_kv_rows queries kv_flat indices)
          (λ q. indexed_body a head_dim block_d scale num_kv_rows q kv_flat indices) body-eq
          (local_eff num_candidates valid_len offset) num_heads q head_block b sts head

    -- The programs `i`, ..., `i + n - 1` write the real heads of their blocks, each once.
    grid-eq :
        (n i : ℕ) (sts : ℕ → State a) (head : ℕ)
        → for_range n i
            (accumulate_indexed_multihead a head_dim block_d scale 8 num_heads num_kv_rows q kv_flat
              indices valid_len num_candidates offset)
            sts
            head
          ≡ (if leb (i * 8) head && ltb head ((i + n) * 8) && ltb head num_heads
              then single head (sts head)
              else sts head)
    unfolding for_range
    grid-eq zero i sts head = ground arith
    grid-eq (suc n) i sts head =
        grid-eq n (suc i) _ head
        ∙ rw (program-eq 8 i sts head) (ranges-join (single head) (sts head) n i head num_heads)

    -- For every head count, on both sides of the choice of kernel, every real head gets the state
    -- that the single-head kernel gives it, and the state of no other head is written.
    pub accumulate_indexed_chunk-eq :
        (sts : ℕ → State a) (head : ℕ)
        → accumulate_indexed_chunk a head_dim block_d scale num_heads num_kv_rows q kv_flat indices
            valid_len num_candidates offset sts head
          ≡ (if ltb head num_heads then single head (sts head) else sts head)
    unfolding accumulate_indexed_chunk single
    accumulate_indexed_chunk-eq sts head = elim (Bool-cases (leb 8 num_heads)) [
      | inl e ↦ rw e (grid-eq (cdiv num_heads 8) 0 sts head ∙ blocks-cover _ _ head num_heads)
      | inr e ↦ rw e refl
    ]
