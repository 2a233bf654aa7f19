-- ===== src/SparseMla/Fp8ds/Entries/Slots.antt =====
-- The entry points that accumulate: one head or a block of heads at a time, the states are the same.
use glm_5_2_gb.Common.{
  ℕ, ◌+◌, ◌-◌, ◌*◌, ◌<◌, ◌≤◌, min, true, ◌&&◌, ◌≡◌, ap, fun_ext, some, Gives, ◌++◌, arith, ltb, leb,
  lt→ltb, for_range, if◌then◌else◌,
}
use glm_5_2_gb.Common.Int.{ℤ}
use glm_5_2_gb.Float.{Arith, IsExact}
use glm_5_2_gb.Softmax.{State, Row, Candidates}
use glm_5_2_gb.Softmax.Laws.{Holds}
use glm_5_2_gb.SparseMla.Accumulate.{cdiv, local_eff}
use glm_5_2_gb.SparseMla.D512.Stores.{in_block, blocks-all}
use glm_5_2_gb.Sm12x.KvCache.Fused.{tiles-cover}
use glm_5_2_gb.SparseMla.Fp8ds.{Layout, Casts, accumulate_global_slots, accumulate_paged}
use glm_5_2_gb.SparseMla.Fp8ds.Laws.{
  slot_candidates, window_candidates, global_slots-Holds, paged-Holds, global_slots_multihead-eq,
  paged_multihead-eq,
}
use glm_5_2_gb.SparseMla.Fp8ds.Entries.{
  token_layout, is_head_block, accepts_states, global_slots_entry, global_slots_multihead_entry,
  paged_entry, paged_multihead_entry,
}

pub some_heads : (n : ℕ) → is_head_block n ≡ true → 0 < n
unfolding is_head_block
some_heads n h = ground arith

module _ {a : Arith} (laws : IsExact a) (casts : Casts a) (next_power_of_2 : ℕ → ℕ)
    (above : (n : ℕ) → n ≤ next_power_of_2 n) (scale : a.S) (q_heads : ℕ) (q : ℕ → Row a)
    (num_heads : ℕ) (enough : num_heads ≤ q_heads) (block_size block_stride : ℕ)
    (k_cache : ℕ → ℕ) where
  abbrev layout : Layout
  layout = token_layout block_size block_stride

  abbrev block_d : ℕ
  block_d = min 1024 (next_power_of_2 512)

  accepted :
      accepts_states a casts next_power_of_2 scale 512 q_heads q num_heads block_size block_stride
        k_cache
      ≡ true
  unfolding accepts_states
  accepted = ground arith

  -- Programs that write the real heads of their blocks write every real head, once.
  all_heads :
      (head_block : ℕ) (program : ℕ → (ℕ → State a) → ℕ → State a) (one : ℕ → State a → State a)
      (sts : ℕ → State a)
      → 0 < head_block
      → ((b : ℕ) (mem : ℕ → State a) (head : ℕ)
          → program b mem head ≡ (
              if leb (b * head_block) head
                && ltb head (b * head_block + head_block)
                && ltb head num_heads
              then one head (mem head)
              else mem head))
      → for_range (cdiv num_heads head_block) 0 program sts
        ≡ (λ head. if ltb head num_heads then one head (sts head) else sts head)
  unfolding in_block
  all_heads head_block program one sts some_block same = fun_ext (
      blocks-all head_block num_heads one program same some_block (cdiv num_heads head_block)
        (tiles-cover num_heads head_block some_block) sts)

  wide : 512 ≤ block_d
  wide = let h = above 512 in omega arith

  -- With 512 dimensions, no more heads than the queries have, a block of 1, 2 or 4 heads, and any
  -- vLLM next_power_of_2 that is at least its argument: reading by global slots, the entry point
  -- for single heads does not fail, and it adds to the candidates that a head's state stands for
  -- the rows below the valid length whose slot is not negative; and the one for blocks of heads
  -- leaves the same states.
  pub global_slots_entries :
      (slot_ids : ℕ → ℤ) (valid_len num_candidates offset head_block_size : ℕ) (sts : ℕ → State a)
      (head : ℕ) (xs : Candidates a)
      → is_head_block head_block_size ≡ true
      → head < num_heads
      → Holds a 512 xs (sts head)
      → Gives
          (λ sts'.
            Holds a 512
              (xs
                ++ slot_candidates a casts
                    (token_layout block_size block_stride)
                    k_cache
                    512
                    scale
                    (q head)
                    slot_ids
                    (local_eff num_candidates valid_len offset))
              (sts' head))
          (global_slots_entry a casts next_power_of_2 scale 512 q_heads q num_heads block_size
            block_stride k_cache slot_ids valid_len num_candidates offset sts)
        × (global_slots_multihead_entry a casts next_power_of_2 scale 512 q_heads q num_heads
              block_size block_stride k_cache slot_ids valid_len num_candidates offset
              head_block_size sts
            ≡ global_slots_entry a casts next_power_of_2 scale 512 q_heads q num_heads block_size
                block_stride k_cache slot_ids valid_len num_candidates offset sts)
  unfolding global_slots_entry global_slots_multihead_entry
  global_slots_entries slot_ids valid_len num_candidates offset head_block_size sts head xs allowed
        real h =
      (
        rw (accepted, lt→ltb head num_heads real)
            (global_slots-Holds laws casts layout k_cache 512 block_d wide scale (q head) slot_ids
              valid_len num_candidates offset xs (sts head) h),
        rw (accepted, allowed)
            (ap some (
              all_heads head_block_size _
                (λ head'.
                  accumulate_global_slots a casts layout k_cache 512 block_d scale (q head')
                    slot_ids valid_len num_candidates offset)
                sts (some_heads head_block_size allowed)
                (global_slots_multihead-eq a casts layout k_cache 512 block_d scale head_block_size
                  num_heads q slot_ids valid_len num_candidates offset))),
      )

  -- With 512 dimensions, no more heads than the queries have, a block of 1, 2 or 4 heads, a window
  -- no longer than the sequence, and any vLLM next_power_of_2 that is at least its argument:
  -- reading by pages, the entry point for single heads does not fail, and it adds to the
  -- candidates that a head's state stands for the rows of the window's positions from the offset
  -- on, up to the chunk's length and to the sequence's end; and the one for blocks of heads leaves
  -- the same states.
  pub paged_entries :
      (block_table : ℕ → ℕ) (seq_len gather_len num_candidates offset head_block_size : ℕ)
      (sts : ℕ → State a) (head : ℕ) (xs : Candidates a)
      → is_head_block head_block_size ≡ true
      → gather_len ≤ seq_len
      → head < num_heads
      → Holds a 512 xs (sts head)
      → Gives
          (λ sts'.
            Holds a 512
              (xs
                ++ window_candidates a casts
                    (token_layout block_size block_stride)
                    k_cache
                    512
                    scale
                    (q head)
                    block_table
                    (seq_len + offset - gather_len)
                    (local_eff num_candidates gather_len offset))
              (sts' head))
          (paged_entry a casts next_power_of_2 scale 512 q_heads q num_heads block_size block_stride
            k_cache block_table seq_len gather_len num_candidates offset sts)
        × (paged_multihead_entry a casts next_power_of_2 scale 512 q_heads q num_heads block_size
              block_stride k_cache block_table seq_len gather_len num_candidates offset
              head_block_size sts
            ≡ paged_entry a casts next_power_of_2 scale 512 q_heads q num_heads block_size
                block_stride k_cache block_table seq_len gather_len num_candidates offset sts)
  unfolding paged_entry paged_multihead_entry
  paged_entries block_table seq_len gather_len num_candidates offset head_block_size sts head xs
        allowed inside real h =
      (
        rw (accepted, lt→ltb head num_heads real)
            (paged-Holds laws casts layout k_cache 512 block_d wide scale (q head) block_table
              seq_len gather_len num_candidates offset xs (sts head) inside h),
        rw (accepted, allowed)
            (ap some (
              all_heads head_block_size _
                (λ head'.
                  accumulate_paged a casts layout k_cache 512 block_d scale (q head') block_table
                    seq_len gather_len num_candidates offset)
                sts (some_heads head_block_size allowed)
                (paged_multihead-eq a casts layout k_cache 512 block_d scale head_block_size
                  num_heads q block_table seq_len gather_len num_candidates offset))),
      )
