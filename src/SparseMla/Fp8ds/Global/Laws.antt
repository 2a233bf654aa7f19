-- ===== src/SparseMla/Fp8ds/Global/Laws.antt =====
-- The pass over compressed rows and a sliding window is the attention over both.
use glm_5_2_gb.Common.{
  ℕ, ◌+◌, ◌-◌, ◌*◌, ◌<◌, ◌≤◌, ◌&&◌, ◌≡◌, refl, [], ◌++◌, Gives, arith, ltb, if◌then◌else◌,
  for_range, Bool-cases, inl, inr,
}
use glm_5_2_gb.Common.Int.{ℤ}
use glm_5_2_gb.Float.{Arith, IsExact}
use glm_5_2_gb.Softmax.{Logit, State, Row, Candidates, blank}
use glm_5_2_gb.Softmax.Laws.{Holds, blank-Holds}
use glm_5_2_gb.SparseMla.Accumulate.{is_nonneg, row_of, load_queries, visit}
use glm_5_2_gb.SparseMla.Accumulate.Loop.{candidates, score_of, visits-Holds}
use glm_5_2_gb.SparseMla.Accumulate.Lanes.{lanes-eq, load_queries-eq}
use glm_5_2_gb.SparseMla.Finish.Laws.{IsAttention}
use glm_5_2_gb.SparseMla.Fp8ds.{Layout, Casts, slot_row, paged_row}
use glm_5_2_gb.SparseMla.Fp8ds.Global.{swa_layout, global_body, swa_body, global_paged_with_sink}
use glm_5_2_gb.SparseMla.Fp8ds.Sink.{stored-IsAttention}

module _ (a : Arith) (casts : Casts a) (l : Layout) (compressed_k_cache : ℕ → ℕ)
    (swa_cache_block_size swa_block_stride : ℕ) (swa_k_cache : ℕ → ℕ) (head_dim : ℕ)
    (scale : a.S) where
  abbrev swa_row : (ℕ → ℕ) → ℕ → Row a
  swa_row block_table p =
      paged_row a casts (swa_layout l swa_cache_block_size swa_block_stride) swa_k_cache block_table
        p

  -- The rows of the slots, up to their number, and of the window's positions, up to its length.
  unfoldable pub compressed_candidates : Row a → (ℕ → ℤ) → ℕ → ℕ → Candidates a
  compressed_candidates q slot_ids topk_len n =
      candidates a (λ i. ltb i topk_len && is_nonneg (slot_ids i))
        (λ i.
          score_of a head_dim scale q (slot_row a casts l compressed_k_cache (row_of (slot_ids i))))
        (λ i. slot_row a casts l compressed_k_cache (row_of (slot_ids i))) n 0

  unfoldable pub swa_candidates : Row a → (ℕ → ℕ) → ℕ → ℕ → ℕ → Candidates a
  swa_candidates q block_table seq_len gather_len n =
      candidates a (λ i. ltb i gather_len)
        (λ i. score_of a head_dim scale q (swa_row block_table (seq_len + i - gather_len)))
        (λ i. swa_row block_table (seq_len + i - gather_len)) n 0

module _ {a : Arith} (laws : IsExact a) (casts : Casts a) (l : Layout) (compressed_k_cache : ℕ → ℕ)
    (swa_cache_block_size swa_block_stride : ℕ) (swa_k_cache : ℕ → ℕ) (head_dim block_d : ℕ)
    (fits : head_dim ≤ block_d) (scale : a.S) where
  global_one : Row a → (ℕ → ℤ) → ℕ → ℕ → State a → State a
  global_one q slot_ids topk_len i st =
      if ltb i topk_len && is_nonneg (slot_ids i)
      then visit a head_dim block_d scale q
          (slot_row a casts l compressed_k_cache (row_of (slot_ids i))) st
      else st

  swa_one : Row a → (ℕ → ℕ) → ℕ → ℕ → ℕ → State a → State a
  swa_one q block_table seq_len gather_len i st =
      if ltb i gather_len
      then visit a head_dim block_d scale q
          (swa_row a casts l compressed_k_cache swa_cache_block_size swa_block_stride swa_k_cache
            head_dim scale block_table (seq_len + i - gather_len))
          st
      else st

  global_body-eq :
      (queries : ℕ → Row a) (q : Row a) (slot_ids : ℕ → ℤ) (topk_len lane : ℕ)
      → queries lane ≡ q
      → (i : ℕ) (lanes : ℕ → State a)
      → global_body a casts l compressed_k_cache swa_cache_block_size swa_block_stride swa_k_cache
          head_dim block_d scale queries slot_ids topk_len i lanes lane
        ≡ global_one q slot_ids topk_len i (lanes lane)
  unfolding global_body global_one
  global_body-eq queries q slot_ids topk_len lane same i lanes =
      elim (Bool-cases (ltb i topk_len && is_nonneg (slot_ids i))) [
        | inl e ↦ rw (e, same) refl
        | inr e ↦ rw e refl
      ]

  swa_body-eq :
      (queries : ℕ → Row a) (q : Row a) (block_table : ℕ → ℕ) (seq_len gather_len lane : ℕ)
      → gather_len ≤ seq_len
      → queries lane ≡ q
      → (i : ℕ) (lanes : ℕ → State a)
      → swa_body a casts l compressed_k_cache swa_cache_block_size swa_block_stride swa_k_cache
          head_dim block_d scale queries block_table
          (seq_len - gather_len)
          gather_len
          i
          lanes
          lane
        ≡ swa_one q block_table seq_len gather_len i (lanes lane)
  unfolding swa_body swa_one
  swa_body-eq queries q block_table seq_len gather_len lane inside same i lanes =
      let place : seq_len - gather_len + i ≡ seq_len + i - gather_len = omega arith in
      elim (Bool-cases (ltb i gather_len)) [ inl e ↦ rw (e, same, place) refl | inr e ↦ rw e refl ]

  -- The state of a lane after both loops stands for the rows of both caches.
  lane-Holds :
      (queries : ℕ → Row a) (q : Row a) (slot_ids : ℕ → ℤ) (topk_len : ℕ) (block_table : ℕ → ℕ)
      (seq_len gather_len num_compressed num_swa lane : ℕ)
      → gather_len ≤ seq_len
      → queries lane ≡ q
      → Holds a head_dim
          (compressed_candidates a casts l compressed_k_cache swa_cache_block_size swa_block_stride
              swa_k_cache head_dim scale q slot_ids topk_len num_compressed
            ++ swa_candidates a casts l compressed_k_cache swa_cache_block_size swa_block_stride
                swa_k_cache head_dim scale q block_table seq_len gather_len num_swa)
          (for_range num_swa 0
            (swa_body a casts l compressed_k_cache swa_cache_block_size swa_block_stride swa_k_cache
              head_dim block_d scale queries block_table
              (seq_len - gather_len)
              gather_len)
            (for_range num_compressed 0
              (global_body a casts l compressed_k_cache swa_cache_block_size swa_block_stride
                swa_k_cache head_dim block_d scale queries slot_ids topk_len)
              (λ lane. blank a))
            lane)
  unfolding compressed_candidates swa_candidates global_one swa_one
  lane-Holds queries q slot_ids topk_len block_table seq_len gather_len num_compressed num_swa lane
        inside same =
      rw
        (
          lanes-eq _ (swa_one q block_table seq_len gather_len) lane
              (swa_body-eq queries q block_table seq_len gather_len lane inside same) num_swa 0 _,
          lanes-eq _ (global_one q slot_ids topk_len) lane
              (global_body-eq queries q slot_ids topk_len lane same) num_compressed 0
              (λ lane. blank a),
        )
        (visits-Holds laws head_dim block_d scale q _ _ _ fits (λ i st. refl) num_swa _ _
          (visits-Holds laws head_dim block_d scale q _ _ _ fits (λ i st. refl) num_compressed []
            (blank a) (blank-Holds laws)))

  -- For a real head of the block, rows no wider than the block, and a window no longer than the
  -- sequence, the one-pass kernel over compressed slots and a sliding window gives no NaN, and the
  -- attention with the head's sink over the rows of the slots that are not padding, followed by
  -- the rows of the window's positions.
  pub global_paged_with_sink-IsAttention :
      (head_block num_heads : ℕ) (q : ℕ → Row a) (slot_ids : ℕ → ℤ) (topk_len : ℕ)
      (block_table : ℕ → ℕ) (seq_len gather_len num_compressed num_swa : ℕ) (sink : ℕ → Logit a.S)
      (b : ℕ) (outs : ℕ → Row a) (head : ℕ)
      → gather_len ≤ seq_len
      → b * head_block ≤ head
      → head < b * head_block + head_block
      → head < num_heads
      → Gives
          (IsAttention a head_dim
            (compressed_candidates a casts l compressed_k_cache swa_cache_block_size
                swa_block_stride swa_k_cache head_dim scale
                (q head)
                slot_ids
                topk_len
                num_compressed
              ++ swa_candidates a casts l compressed_k_cache swa_cache_block_size swa_block_stride
                  swa_k_cache head_dim scale
                  (q head)
                  block_table
                  seq_len
                  gather_len
                  num_swa)
            (sink head))
          (global_paged_with_sink a casts l compressed_k_cache swa_cache_block_size swa_block_stride
            swa_k_cache head_dim block_d scale head_block num_heads q slot_ids topk_len block_table
            seq_len gather_len num_compressed num_swa sink b outs head)
  unfolding global_paged_with_sink
  global_paged_with_sink-IsAttention head_block num_heads q slot_ids topk_len block_table seq_len
        gather_len num_compressed num_swa sink b outs head inside low high real =
      let lane : ℕ = head - b * head_block in
      let place : b * head_block + lane ≡ head = omega arith in
      stored-IsAttention laws casts l compressed_k_cache head_dim block_d scale num_heads outs
        head_block b _ sink head fits low high real
        (lane-Holds (load_queries a head_dim block_d scale num_heads q head_block b) (q head)
          slot_ids topk_len block_table seq_len gather_len num_compressed num_swa lane inside
          (load_queries-eq a head_dim block_d scale num_heads q head_block b lane head place real))
