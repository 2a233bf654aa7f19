-- ===== src/SparseMla/Fp8ds/Entries/Sinks.antt =====
-- The entry points with a sink, and the block of heads that the environment chooses for a decode.
use native.Mathlib.Nat.{le-div_iff_mul-le, div-mul-le_self, lt-div-mul-add}
use glm_5_2_gb.Common.{
  ℕ, suc, ◌+◌, ◌-◌, ◌*◌, ◌/◌, ◌<◌, ◌≤◌, min, true, ◌||◌, ◌≡◌, inl, inr, refl, ◌∙◌, Option, none,
  some, Gives, ◌++◌, arith, lt→ltb, ◌==◌, if◌then◌else◌, Bool-cases,
}
use native.Mathlib.Decide.{dec_le}
use glm_5_2_gb.Common.Int.{ℤ, pos, negsuc}
use glm_5_2_gb.Float.{Arith, IsExact}
use glm_5_2_gb.Softmax.{Logit, Row}
use glm_5_2_gb.SparseMla.Accumulate.{cdiv, local_eff}
use glm_5_2_gb.SparseMla.D512.Stores.{in_block, blocks-all}
use glm_5_2_gb.Sm12x.KvCache.Fused.{tiles-cover}
use glm_5_2_gb.SparseMla.Finish.Laws.{IsAttention}
use glm_5_2_gb.SparseMla.Fp8ds.{Casts}
use glm_5_2_gb.SparseMla.Fp8ds.Laws.{window_candidates}
use glm_5_2_gb.SparseMla.Fp8ds.Sink.{paged_with_sink-IsAttention}
use glm_5_2_gb.SparseMla.Fp8ds.Global.Laws.{
  compressed_candidates, swa_candidates, global_paged_with_sink-IsAttention,
}
use glm_5_2_gb.SparseMla.Fp8ds.Entries.{
  token_layout, is_head_block, head_block_size_setting, decode_head_block_size, active_or_out_heads,
  accepts_outputs, store_rows, paged_with_sink_entry, global_paged_with_sink_entry,
}
use glm_5_2_gb.SparseMla.Fp8ds.Entries.Slots.{some_heads}

-- The block of a place.
block_of : (width b r : ℕ) → 0 < width → b * width ≤ r → r < b * width + width → r / width ≡ b
block_of width b r some_width low high =
    let below : b ≤ r / width = (le-div_iff_mul-le some_width).1 low in
    elim (dec_le (suc b) (r / width)) [
      | yes h ↦
          let h' : suc b * width ≤ r = (le-div_iff_mul-le some_width).0 h in absurd (omega arith)
      | no h ↦ omega arith
    ]

-- Whatever the environment's setting is and however many tokens are decoded: the chosen block of
-- heads is one that the entry points for blocks of heads accept.
pub decode_head_block_size_lem :
    (setting : Option ℤ) (num_decode_tokens : ℕ)
    → is_head_block (decode_head_block_size setting num_decode_tokens) ≡ true
unfolding decode_head_block_size head_block_size_setting is_head_block
decode_head_block_size_lem none n = ground arith
decode_head_block_size_lem (some (negsuc m)) n = ground arith
decode_head_block_size_lem (some (pos m)) n = elim (Bool-cases ((m == 1) || (m == 2) || (m == 4))) [
  | inl e ↦ rw (decode_head_block_size, head_block_size_setting, e) e
  | inr e ↦ rw (decode_head_block_size, head_block_size_setting, e) (ground arith)
]

module _ {a : Arith} (laws : IsExact a) (casts : Casts a) (next_power_of_2 : ℕ → ℕ)
    (above : (n : ℕ) → n ≤ next_power_of_2 n) (scale : a.S) (q_heads : ℕ) (q : ℕ → Row a)
    (sink_heads out_heads : ℕ) (attn_sink : ℕ → Logit a.S) (head_block_size : ℕ)
    (allowed : is_head_block head_block_size ≡ true) (num_heads : Option ℕ) where
  abbrev active : ℕ
  active = active_or_out_heads a casts next_power_of_2 scale 512 q_heads q num_heads out_heads

  abbrev block_d : ℕ
  block_d = min 1024 (next_power_of_2 512)

  wide : 512 ≤ block_d
  wide = let h = above 512 in omega arith

  accepted :
      active ≤ q_heads
      → active ≤ out_heads
      → active ≤ sink_heads
      → accepts_outputs a casts next_power_of_2 scale 512 q_heads q active out_heads sink_heads
          head_block_size
        ≡ true
  unfolding accepts_outputs
  accepted h h' h'' = rw allowed (ground arith)

  same_block :
      (program : ℕ → ℕ → Option (Row a)) (b : ℕ) (old : Option (Row a)) (r : ℕ)
      → (if in_block head_block_size active b r then program b r else old)
        ≡ (if in_block head_block_size active b r then program (r / head_block_size) r else old)
  unfolding in_block
  same_block program b old r = elim (Bool-cases (in_block head_block_size active b r)) [
    | inl e ↦
        let place =
          block_of head_block_size b r (some_heads head_block_size allowed) (ground arith)
            (ground arith) in
        rw place refl
    | inr e ↦ rw (in_block, e) refl
  ]

  store_rows-eq :
      (program : ℕ → ℕ → Option (Row a)) (output : ℕ → Row a) (head : ℕ)
      → head < active
      → store_rows a casts next_power_of_2 scale 512 q_heads q active head_block_size program output
          head
        ≡ program (head / head_block_size) head
  unfolding store_rows
  store_rows-eq program output head real =
      let some_block = some_heads head_block_size allowed in
      blocks-all head_block_size active (λ r _. program (r / head_block_size) r) _
        (λ b mem r. same_block program b (mem r) r) some_block (cdiv active head_block_size)
        (tiles-cover active head_block_size some_block) (λ r. some (output r)) head
      ∙ rw (lt→ltb head active real) refl

  -- With 512 dimensions, a block of 1, 2 or 4 heads, no more active heads than there are in the
  -- queries, the outputs and the sinks, a window no longer than the sequence, and any vLLM
  -- next_power_of_2 that is at least its argument: the entry point by pages with sinks does not
  -- fail, and gives each active head no NaN and the attention with its sink over the rows of the
  -- window's positions from the offset on, up to the chunk's length (num_candidates of them at
  -- most) and to the sequence's end.
  pub paged_with_sink_entry-IsAttention :
      (block_size block_stride : ℕ) (k_cache block_table : ℕ → ℕ)
      (seq_len gather_len num_candidates offset : ℕ) (output : ℕ → Row a) (head : ℕ)
      → gather_len ≤ seq_len
      → active_or_out_heads a casts next_power_of_2 scale 512 q_heads q num_heads out_heads
        ≤ q_heads
      → active_or_out_heads a casts next_power_of_2 scale 512 q_heads q num_heads out_heads
        ≤ out_heads
      → active_or_out_heads a casts next_power_of_2 scale 512 q_heads q num_heads out_heads
        ≤ sink_heads
      → head < active_or_out_heads a casts next_power_of_2 scale 512 q_heads q num_heads out_heads
      → Gives
          (λ rows.
            Gives
              (IsAttention a 512
                (window_candidates a casts
                  (token_layout block_size block_stride)
                  k_cache
                  512
                  scale
                  (q head)
                  block_table
                  (seq_len + offset - gather_len)
                  (local_eff num_candidates gather_len offset))
                (attn_sink head))
              (rows head))
          (paged_with_sink_entry a casts next_power_of_2 scale 512 q_heads q block_size block_stride
            k_cache block_table seq_len gather_len num_candidates offset sink_heads out_heads
            attn_sink head_block_size num_heads output)
  unfolding paged_with_sink_entry
  paged_with_sink_entry-IsAttention block_size block_stride k_cache block_table seq_len gather_len
        num_candidates offset output head inside h h' h'' real =
      let some_block = some_heads head_block_size allowed in
      rw (accepted h h' h'', store_rows-eq _ output head real)
        (paged_with_sink-IsAttention laws casts (token_layout block_size block_stride) k_cache 512
          block_d scale head_block_size active q block_table seq_len gather_len num_candidates
          offset attn_sink (head / head_block_size) output head wide inside
          (div-mul-le_self head head_block_size) (lt-div-mul-add some_block) real)

  -- With 512 dimensions, a block of 1, 2 or 4 heads, no more active heads than there are in the
  -- queries, the outputs and the sinks, a window no longer than the sequence, and any vLLM
  -- next_power_of_2 that is at least its argument: the one-pass entry point over compressed slots
  -- and a sliding window does not fail, and gives each active head no NaN and the attention with
  -- its sink over the rows of those slots that are below the valid length and the number of
  -- compressed candidates and are not padding, followed by the rows of the window's positions that
  -- are below the window's length and the number of window candidates, the first of them
  -- gather_len before the sequence's end.
  pub global_paged_with_sink_entry-IsAttention :
      (compressed_block_size compressed_stride swa_block_size swa_stride : ℕ)
      (compressed_k_cache swa_k_cache : ℕ → ℕ) (slot_ids : ℕ → ℤ) (topk_len : ℕ)
      (block_table : ℕ → ℕ) (seq_len gather_len num_compressed num_swa : ℕ) (output : ℕ → Row a)
      (head : ℕ)
      → gather_len ≤ seq_len
      → active_or_out_heads a casts next_power_of_2 scale 512 q_heads q num_heads out_heads
        ≤ q_heads
      → active_or_out_heads a casts next_power_of_2 scale 512 q_heads q num_heads out_heads
        ≤ out_heads
      → active_or_out_heads a casts next_power_of_2 scale 512 q_heads q num_heads out_heads
        ≤ sink_heads
      → head < active_or_out_heads a casts next_power_of_2 scale 512 q_heads q num_heads out_heads
      → Gives
          (λ rows.
            Gives
              (IsAttention a 512
                (compressed_candidates a casts
                    (token_layout compressed_block_size compressed_stride)
                    compressed_k_cache
                    swa_block_size
                    swa_stride
                    swa_k_cache
                    512
                    scale
                    (q head)
                    slot_ids
                    topk_len
                    num_compressed
                  ++ swa_candidates a casts
                      (token_layout compressed_block_size compressed_stride)
                      compressed_k_cache
                      swa_block_size
                      swa_stride
                      swa_k_cache
                      512
                      scale
                      (q head)
                      block_table
                      seq_len
                      gather_len
                      num_swa)
                (attn_sink head))
              (rows head))
          (global_paged_with_sink_entry a casts next_power_of_2 scale 512 q_heads q
            compressed_block_size compressed_stride swa_block_size swa_stride compressed_k_cache
            swa_k_cache slot_ids topk_len block_table seq_len gather_len num_compressed num_swa
            sink_heads out_heads attn_sink head_block_size num_heads output)
  unfolding global_paged_with_sink_entry
  global_paged_with_sink_entry-IsAttention compressed_block_size compressed_stride swa_block_size
        swa_stride compressed_k_cache swa_k_cache slot_ids topk_len block_table seq_len gather_len
        num_compressed num_swa output head inside h h' h'' real =
      let some_block = some_heads head_block_size allowed in
      rw (accepted h h' h'', store_rows-eq _ output head real)
        (global_paged_with_sink-IsAttention laws casts
          (token_layout compressed_block_size compressed_stride) compressed_k_cache swa_block_size
          swa_stride swa_k_cache 512 block_d wide scale head_block_size active q slot_ids topk_len
          block_table seq_len gather_len num_compressed num_swa attn_sink (head / head_block_size)
          output head inside (div-mul-le_self head head_block_size) (lt-div-mul-add some_block)
          real)
