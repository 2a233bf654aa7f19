-- ===== src/SparseMla/Fp8ds/Entries/Passes.antt =====
-- The pass over compressed rows and a window gives what three calls give: an accumulation of each into a
-- fresh state, and the finish of the two states.
use mathlib.Core.Path.{ap₂, fun_ext}
use glm_5_2_gb.Common.{
  ℕ, ◌+◌, ◌-◌, ◌<◌, ◌≤◌, true, ◌&&◌, ◌≡◌, refl, sym, ap, ◌∙◌, Option, some, Gives, Gives-weaken, [],
  ◌++◌, arith, ltb,
}
use glm_5_2_gb.Common.Int.{ℤ}
use glm_5_2_gb.Float.{Arith, IsExact}
use glm_5_2_gb.Softmax.{Logit, State, Row, Candidates, blank}
use glm_5_2_gb.Softmax.Laws.{blank-Holds}
use glm_5_2_gb.SparseMla.Accumulate.{is_nonneg, row_of, local_eff}
use glm_5_2_gb.SparseMla.Accumulate.Loop.{candidates, score_of}
use glm_5_2_gb.Sm12x.KvCache.Candidates.{candidates-bounded}
use glm_5_2_gb.SparseMla.Finish.Laws.{IsAttention}
use glm_5_2_gb.SparseMla.Finish.Entries.{finish_two_entry, finish_two_entry-IsAttention}
use glm_5_2_gb.SparseMla.Fp8ds.{Layout, Casts, slot_row, paged_row}
use glm_5_2_gb.SparseMla.Fp8ds.Laws.{slot_candidates, window_candidates}
use glm_5_2_gb.SparseMla.Fp8ds.Global.{swa_layout}
use glm_5_2_gb.SparseMla.Fp8ds.Global.Laws.{compressed_candidates, swa_candidates}
use glm_5_2_gb.SparseMla.Fp8ds.Entries.{
  token_layout, is_head_block, global_slots_entry, paged_entry, active_or_out_heads,
  global_paged_with_sink_entry,
}
use glm_5_2_gb.SparseMla.Fp8ds.Entries.Slots.{global_slots_entries, paged_entries}
use glm_5_2_gb.SparseMla.Fp8ds.Entries.Sinks.{global_paged_with_sink_entry-IsAttention}

module _ {a : Arith} (casts : Casts a) (scale : a.S) (q : Row a)
    (compressed_block_size compressed_stride swa_block_size swa_stride : ℕ)
    (compressed_k_cache swa_k_cache : ℕ → ℕ) where
  abbrev layout : Layout
  layout = token_layout compressed_block_size compressed_stride

  compressed_candidates-eq :
      (slot_ids : ℕ → ℤ) (topk_len n : ℕ)
      → compressed_candidates a casts layout compressed_k_cache swa_block_size swa_stride
          swa_k_cache 512 scale q slot_ids topk_len n
        ≡ slot_candidates a casts layout compressed_k_cache 512 scale q slot_ids
            (local_eff n topk_len 0)
  unfolding compressed_candidates slot_candidates local_eff
  compressed_candidates-eq slot_ids topk_len n =
      let score : ℕ → a.S = λ i.
        score_of a 512 scale q (slot_row a casts layout compressed_k_cache (row_of (slot_ids i))) in
      let row : ℕ → Row a = λ i. slot_row a casts layout compressed_k_cache (row_of (slot_ids i)) in
      let swapped : (λ i. ltb i topk_len && is_nonneg (slot_ids i))
          ≡ (λ i. is_nonneg (slot_ids i) && ltb i topk_len) =
        fun_ext (λ i. ground arith) in
      let all : topk_len - 0 ≡ topk_len = omega arith in
      ap (λ valid. candidates a valid score row n 0) swapped
      ∙ candidates-bounded a (λ i. is_nonneg (slot_ids i)) score row n topk_len
      ∙ rw all refl

  swa_candidates-eq :
      (block_table : ℕ → ℕ) (seq_len gather_len n : ℕ)
      → gather_len ≤ seq_len
      → swa_candidates a casts layout compressed_k_cache swa_block_size swa_stride swa_k_cache 512
          scale q block_table seq_len gather_len n
        ≡ window_candidates a casts
            (token_layout swa_block_size swa_stride)
            swa_k_cache
            512
            scale
            q
            block_table
            (seq_len + 0 - gather_len)
            (local_eff n gather_len 0)
  unfolding swa_candidates window_candidates local_eff token_layout swa_layout
  swa_candidates-eq block_table seq_len gather_len n inside =
      let row : ℕ → Row a =
        paged_row a casts (token_layout swa_block_size swa_stride) swa_k_cache block_table in
      let at : ℕ → ℕ = λ i. seq_len + 0 - gather_len + i in
      let place : (λ (i : ℕ). seq_len + i - gather_len) ≡ at = fun_ext (λ i. omega arith) in
      let all : gather_len - 0 ≡ gather_len = omega arith in
      ap
        (λ (p : ℕ → ℕ).
          candidates a (λ i. ltb i gather_len) (λ i. score_of a 512 scale q (row (p i)))
            (λ i. row (p i)) n 0)
        place
      ∙ candidates-bounded a (λ i. true) (λ i. score_of a 512 scale q (row (at i)))
          (λ i. row (at i)) n gather_len
      ∙ rw all refl

-- Two rows that are the attention over the same candidates.
same_attention :
    (a : Arith) {dim : ℕ} (sink : Logit a.S) (xs ys : Candidates a) (r r' : Row a)
    → ys ≡ xs
    → IsAttention a dim xs sink r
    → IsAttention a dim ys sink r'
    → (d : ℕ) → d < dim
    → r d ≡ r' d
same_attention a sink xs ys r r' e p p' d h = p d h ∙ rw (← e) (sym (p' d h))

module _ {a : Arith} (laws : IsExact a) (casts : Casts a) (next_power_of_2 : ℕ → ℕ)
    (above : (n : ℕ) → n ≤ next_power_of_2 n) (scale : a.S) (q_heads : ℕ) (q : ℕ → Row a)
    (sink_heads out_heads : ℕ) (attn_sink : ℕ → Logit a.S) (head_block_size : ℕ)
    (allowed : is_head_block head_block_size ≡ true) (num_heads : ℕ) (enough : num_heads ≤ q_heads)
    (compressed_block_size compressed_stride swa_block_size swa_stride : ℕ)
    (compressed_k_cache swa_k_cache : ℕ → ℕ) (slot_ids : ℕ → ℤ) (topk_len : ℕ) (block_table : ℕ → ℕ)
    (seq_len gather_len num_compressed num_swa : ℕ) (output : ℕ → Row a) (head : ℕ) where
  abbrev compressed_states : Option (ℕ → State a)
  compressed_states =
      global_slots_entry a casts next_power_of_2 scale 512 q_heads q num_heads compressed_block_size
        compressed_stride compressed_k_cache slot_ids topk_len num_compressed 0 (λ head'. blank a)

  abbrev window_states : Option (ℕ → State a)
  window_states =
      paged_entry a casts next_power_of_2 scale 512 q_heads q num_heads swa_block_size swa_stride
        swa_k_cache block_table seq_len gather_len num_swa 0 (λ head'. blank a)

  abbrev one_pass : Option (ℕ → Option (Row a))
  one_pass =
      global_paged_with_sink_entry a casts next_power_of_2 scale 512 q_heads q compressed_block_size
        compressed_stride swa_block_size swa_stride compressed_k_cache swa_k_cache slot_ids topk_len
        block_table seq_len gather_len num_compressed num_swa sink_heads out_heads attn_sink
        head_block_size (some num_heads) output

  -- The head's row of the one pass is the finished one.
  abbrev IsRow : (ℕ → Option (Row a)) → Row a → Type 0
  IsRow rows r = Gives (λ r'. (d : ℕ) → d < 512 → r d ≡ r' d) (rows head)

  abbrev Agrees : (ℕ → State a) → (ℕ → State a) → (ℕ → Option (Row a)) → Type 0
  Agrees compressed window rows =
      Gives (IsRow rows)
        (finish_two_entry a next_power_of_2 num_heads 512 compressed window attn_sink output head)

  -- With 512 dimensions, a block of 1, 2 or 4 heads, no more heads than there are in the queries,
  -- the outputs and the sinks, a window no longer than the sequence, and any vLLM next_power_of_2
  -- that is at least its argument: accumulating the compressed rows by global slots into fresh
  -- states, the window's rows by pages into others, and finishing the two gives each head the row
  -- that the one-pass entry point gives it; none of the calls fails, and no row has a NaN.
  pub passes_agree :
      gather_len ≤ seq_len
      → num_heads ≤ out_heads
      → num_heads ≤ sink_heads
      → head < num_heads
      → Gives
          (λ compressed. Gives (λ window. Gives (Agrees compressed window) one_pass) window_states)
          compressed_states
  unfolding active_or_out_heads
  passes_agree inside fits fits' real =
      let xs : Candidates a =
        slot_candidates a casts (token_layout compressed_block_size compressed_stride)
          compressed_k_cache 512 scale (q head) slot_ids (local_eff num_compressed topk_len 0) in
      let ys : Candidates a =
        window_candidates a casts (token_layout swa_block_size swa_stride) swa_k_cache 512 scale
          (q head) block_table (seq_len + 0 - gather_len) (local_eff num_swa gather_len 0) in
      let same =
        ap₂ ◌++◌
          (compressed_candidates-eq casts scale (q head) compressed_block_size compressed_stride
            swa_block_size swa_stride compressed_k_cache swa_k_cache slot_ids topk_len
            num_compressed)
          (swa_candidates-eq casts scale (q head) compressed_block_size compressed_stride
            swa_block_size swa_stride compressed_k_cache swa_k_cache block_table seq_len gather_len
            num_swa inside) in
      Gives-weaken
        (λ compressed. Gives (λ window. Gives (Agrees compressed window) one_pass) window_states)
        compressed_states
        (global_slots_entries laws casts next_power_of_2 above scale q_heads q num_heads enough
          compressed_block_size compressed_stride compressed_k_cache slot_ids topk_len
          num_compressed 0 head_block_size (λ head'. blank a) head [] allowed real
          (blank-Holds laws)).0
        λ compressed h.
          Gives-weaken (λ window. Gives (Agrees compressed window) one_pass) window_states
            (paged_entries laws casts next_power_of_2 above scale q_heads q num_heads enough
              swa_block_size swa_stride swa_k_cache block_table seq_len gather_len num_swa 0
              head_block_size (λ head'. blank a) head [] allowed inside real (blank-Holds laws)).0
            λ window h'.
              Gives-weaken (Agrees compressed window) one_pass
                (global_paged_with_sink_entry-IsAttention laws casts next_power_of_2 above scale
                  q_heads q sink_heads out_heads attn_sink head_block_size allowed (some num_heads)
                  compressed_block_size compressed_stride swa_block_size swa_stride
                  compressed_k_cache swa_k_cache slot_ids topk_len block_table seq_len gather_len
                  num_compressed num_swa output head inside enough fits fits' real)
                λ rows g.
                  Gives-weaken (IsRow rows) _
                    (finish_two_entry-IsAttention laws next_power_of_2 above num_heads 512
                      (omega arith) compressed window attn_sink output head xs ys real h h')
                    λ r p.
                      Gives-weaken (λ r'. (d : ℕ) → d < 512 → r d ≡ r' d) (rows head) g
                        (λ r' p'. same_attention a (attn_sink head) _ _ r r' same p p')
