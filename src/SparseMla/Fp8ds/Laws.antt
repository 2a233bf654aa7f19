-- ===== src/SparseMla/Fp8ds/Laws.antt =====
-- What the fp8_ds_mla kernels add to a state, for one head and for a block of heads.
use glm_5_2_gb.Common.{
  ℕ, ◌+◌, ◌-◌, ◌*◌, ◌≤◌, true, ◌&&◌, ◌≡◌, refl, ap, ◌++◌, arith, ltb, leb, if◌then◌else◌,
  Bool-cases, inl, inr,
}
use glm_5_2_gb.Common.Int.{ℤ}
use glm_5_2_gb.Float.{Arith, IsExact}
use glm_5_2_gb.Softmax.{State, Row, Candidates}
use glm_5_2_gb.Softmax.Laws.{Holds}
use glm_5_2_gb.SparseMla.Accumulate.{is_nonneg, row_of, local_eff, visit}
use glm_5_2_gb.SparseMla.Accumulate.Loop.{candidates, score_of, kernel-Holds}
use glm_5_2_gb.SparseMla.Accumulate.Lanes.{run_head, block-eq}
use glm_5_2_gb.SparseMla.Fp8ds.{
  Layout, Casts, slot_row, paged_row, slots_body, accumulate_global_slots, paged_body,
  accumulate_paged, slots_multihead_body, accumulate_global_slots_multihead, paged_multihead_body,
  accumulate_paged_multihead,
}

module _ (a : Arith) (casts : Casts a) (l : Layout) (k_cache : ℕ → ℕ) (head_dim : ℕ) (scale : a.S)
    (q : Row a) where
  -- The rows that the slots name, of those that are not padding.
  unfoldable pub slot_candidates : (ℕ → ℤ) → ℕ → Candidates a
  slot_candidates slot_ids n =
      candidates a (λ i. is_nonneg (slot_ids i))
        (λ i. score_of a head_dim scale q (slot_row a casts l k_cache (row_of (slot_ids i))))
        (λ i. slot_row a casts l k_cache (row_of (slot_ids i))) n 0

  -- The rows of `n` positions of the sequence from `first` on.
  unfoldable pub window_candidates : (ℕ → ℕ) → ℕ → ℕ → Candidates a
  window_candidates block_table first n =
      candidates a (λ i. true)
        (λ i. score_of a head_dim scale q (paged_row a casts l k_cache block_table (first + i)))
        (λ i. paged_row a casts l k_cache block_table (first + i)) n 0

module _ {a : Arith} (laws : IsExact a) (casts : Casts a) (l : Layout) (k_cache : ℕ → ℕ)
    (head_dim block_d : ℕ) (fits : head_dim ≤ block_d) (scale : a.S) where
  -- With rows no wider than the block, reading by global slots, the kernel adds the rows below the
  -- valid length whose slot is not negative to the candidates that its state stands for.
  pub global_slots-Holds :
      (q : Row a) (slot_ids : ℕ → ℤ) (valid_len num_candidates offset : ℕ) (xs : Candidates a)
      (st : State a)
      → Holds a head_dim xs st
      → Holds a head_dim
          (xs
            ++ slot_candidates a casts l k_cache head_dim scale q slot_ids
                (local_eff num_candidates valid_len offset))
          (accumulate_global_slots a casts l k_cache head_dim block_d scale q slot_ids valid_len
            num_candidates offset st)
  unfolding accumulate_global_slots slots_body slot_candidates
  global_slots-Holds q slot_ids valid_len num_candidates offset xs st h =
      kernel-Holds laws head_dim block_d scale q
        (λ i. slot_row a casts l k_cache (row_of (slot_ids i))) (λ i. is_nonneg (slot_ids i)) _ fits
        (λ i st'. refl) _ xs st h

  -- With rows no wider than the block, reading by pages a window no longer than the sequence, the
  -- kernel adds the rows of the window's positions from the offset on, up to the chunk's length
  -- and to the sequence's end, to the candidates that its state stands for.
  pub paged-Holds :
      (q : Row a) (block_table : ℕ → ℕ) (seq_len gather_len num_candidates offset : ℕ)
      (xs : Candidates a) (st : State a)
      → gather_len ≤ seq_len
      → Holds a head_dim xs st
      → Holds a head_dim
          (xs
            ++ window_candidates a casts l k_cache head_dim scale q block_table
                (seq_len + offset - gather_len)
                (local_eff num_candidates gather_len offset))
          (accumulate_paged a casts l k_cache head_dim block_d scale q block_table seq_len
            gather_len num_candidates offset st)
  unfolding accumulate_paged paged_body window_candidates
  paged-Holds q block_table seq_len gather_len num_candidates offset xs st inside h =
      kernel-Holds laws head_dim block_d scale q
        (λ i. paged_row a casts l k_cache block_table (seq_len + offset - gather_len + i))
        (λ i. true) _ fits
        (λ i st'.
          ap (λ p. visit a head_dim block_d scale q (paged_row a casts l k_cache block_table p) st')
            (omega arith))
        _ xs st h

module _ (a : Arith) (casts : Casts a) (l : Layout) (k_cache : ℕ → ℕ) (head_dim block_d : ℕ)
    (scale : a.S) where
  slots_body-eq :
      (slot_ids : ℕ → ℤ) (queries : ℕ → Row a) (lane i : ℕ) (lanes : ℕ → State a)
      → slots_multihead_body a casts l k_cache head_dim block_d scale queries slot_ids i lanes lane
        ≡ slots_body a casts l k_cache head_dim block_d scale (queries lane) slot_ids i (lanes lane)
  unfolding slots_multihead_body slots_body
  slots_body-eq slot_ids queries lane i lanes = elim (Bool-cases (is_nonneg (slot_ids i))) [
    | inl e ↦ rw e refl
    | inr e ↦ rw e refl
  ]

  -- A program of the multihead kernel by global slots gives the real heads of its block the state
  -- that the kernel for one head gives them, and leaves the state of every other head as it is.
  pub global_slots_multihead-eq :
      (head_block num_heads : ℕ) (q : ℕ → Row a) (slot_ids : ℕ → ℤ)
      (valid_len num_candidates offset b : ℕ) (sts : ℕ → State a) (head : ℕ)
      → accumulate_global_slots_multihead a casts l k_cache head_dim block_d scale head_block
          num_heads q slot_ids valid_len num_candidates offset b sts head
        ≡ (if leb (b * head_block) head
              && ltb head (b * head_block + head_block)
              && ltb head num_heads
            then accumulate_global_slots a casts l k_cache head_dim block_d scale
                (q head)
                slot_ids
                valid_len
                num_candidates
                offset
                (sts head)
            else sts head)
  unfolding accumulate_global_slots_multihead accumulate_global_slots run_head
  global_slots_multihead-eq head_block num_heads q slot_ids valid_len num_candidates offset b sts
        head =
      block-eq a head_dim block_d scale
        (λ queries. slots_multihead_body a casts l k_cache head_dim block_d scale queries slot_ids)
        (λ q'. slots_body a casts l k_cache head_dim block_d scale q' slot_ids)
        (slots_body-eq slot_ids) (local_eff num_candidates valid_len offset) num_heads q head_block
        b sts head

  -- A program of the multihead kernel by pages gives the real heads of its block the state that
  -- the kernel for one head gives them, and leaves the state of every other head as it is.
  pub paged_multihead-eq :
      (head_block num_heads : ℕ) (q : ℕ → Row a) (block_table : ℕ → ℕ)
      (seq_len gather_len num_candidates offset b : ℕ) (sts : ℕ → State a) (head : ℕ)
      → accumulate_paged_multihead a casts l k_cache head_dim block_d scale head_block num_heads q
          block_table seq_len gather_len num_candidates offset b sts head
        ≡ (if leb (b * head_block) head
              && ltb head (b * head_block + head_block)
              && ltb head num_heads
            then accumulate_paged a casts l k_cache head_dim block_d scale
                (q head)
                block_table
                seq_len
                gather_len
                num_candidates
                offset
                (sts head)
            else sts head)
  unfolding accumulate_paged_multihead accumulate_paged paged_multihead_body paged_body run_head
  paged_multihead-eq head_block num_heads q block_table seq_len gather_len num_candidates offset b
        sts head =
      block-eq a head_dim block_d scale
        (λ queries.
          paged_multihead_body a casts l k_cache head_dim block_d scale queries block_table
            (seq_len - gather_len) offset)
        (λ q'.
          paged_body a casts l k_cache head_dim block_d scale q' block_table (seq_len - gather_len)
            offset)
        (λ queries lane i lanes. refl) (local_eff num_candidates gather_len offset) num_heads q
        head_block b sts head
