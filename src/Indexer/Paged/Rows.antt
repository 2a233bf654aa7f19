-- ===== src/Indexer/Paged/Rows.antt =====
-- Either grid stores every logit of a window.
use glm_5_2_gb.Common.{
  ℕ, ◌+◌, ◌%◌, ◌<◌, ◌≤◌, true, ◌&&◌, ◌≡◌, inl, inr, refl, ap, ◌∙◌, some, tabulate, arith, leb, ◌==◌,
  lt→ltb, for_range, if◌then◌else◌, Bool-cases,
}
use glm_5_2_gb.Softmax.{Logit}
use glm_5_2_gb.SparseMla.Accumulate.{cdiv}
use glm_5_2_gb.SparseMla.D512.Stores.{in_block, blocks-all}
use glm_5_2_gb.Sm12x.KvCache.Fused.{tiles-cover}
use glm_5_2_gb.Indexer.Chosen.{tabulate-on, tabulate-shift}
use glm_5_2_gb.Indexer.{Values, IsExactSum}
use glm_5_2_gb.Indexer.Paged.{
  PagedView, paged_logits_kernel, rowwise_logits_kernel, rowwise_logits, paged_logits,
}
use glm_5_2_gb.Indexer.Paged.Scores.{position_logit, rowwise_logit-eq, paged_logit-eq}

in_block-below : (width bound b r : ℕ) → in_block width bound b r ≡ true → r < bound
unfolding in_block
in_block-below width bound b r h = ground arith

module _ {v : Values} (kv : PagedView v) (block_size head_dim num_heads : ℕ) (q : ℕ → ℕ → v.V)
    (weights : ℕ → v.V) (context_len : ℕ) (block_table : ℕ → ℕ) (laws : IsExactSum v) where
  abbrev at_position : ℕ → Logit v.V
  at_position = position_logit kv block_size head_dim num_heads q weights context_len block_table

  module _ (token_start token_count : ℕ) where
    -- What a program of either kernel stores.
    abbrev stored : ℕ → ℕ → (ℕ → Logit v.V) → ℕ → Logit v.V
    stored width b mem r =
        if in_block width token_count b r then at_position (token_start + r) else mem r

    paged_logits_kernel-eq :
        (b : ℕ) (mem : ℕ → Logit v.V) (r : ℕ)
        → paged_logits_kernel v kv block_size head_dim num_heads q weights context_len block_table
            token_start token_count b mem r
          ≡ stored 64 b mem r
    unfolding paged_logits_kernel
    paged_logits_kernel-eq b mem r = elim (Bool-cases (in_block 64 token_count b r)) [
      | inl e ↦ rw e (
          paged_logit-eq kv block_size head_dim num_heads q weights context_len block_table laws
            token_start token_count r (in_block-below 64 token_count b r e))
      | inr e ↦ rw e refl
    ]

    rowwise_logits_kernel-eq :
        (b : ℕ) (mem : ℕ → Logit v.V) (r : ℕ)
        → rowwise_logits_kernel v kv block_size head_dim num_heads q weights context_len block_table
            token_start token_count b mem r
          ≡ stored 128 b mem r
    unfolding rowwise_logits_kernel
    rowwise_logits_kernel-eq b mem r = elim (Bool-cases (in_block 128 token_count b r)) [
      | inl e ↦ rw e (
          rowwise_logit-eq kv block_size head_dim num_heads q weights context_len block_table laws
            token_start token_count b r (in_block-below 128 token_count b r e) e)
      | inr e ↦ rw e refl
    ]

    all_stored :
        (width : ℕ) (program : ℕ → (ℕ → Logit v.V) → ℕ → Logit v.V) (empty : ℕ → Logit v.V)
        → 0 < width
        → ((b : ℕ) (mem : ℕ → Logit v.V) (r : ℕ) → program b mem r ≡ stored width b mem r)
        → tabulate (for_range (cdiv token_count width) 0 program empty) token_count 0
          ≡ tabulate at_position token_count token_start
    all_stored width program empty some_width one =
        tabulate-on _ (λ j. at_position (j + token_start)) token_count 0
          (λ j _ h.
            blocks-all width token_count (λ r _. at_position (token_start + r)) program one
              some_width (cdiv token_count width) (tiles-cover token_count width some_width) empty j
            ∙ rw (lt→ltb j token_count (omega arith)) (ap at_position (omega arith)))
        ∙ tabulate-shift at_position token_count token_start 0 token_start (omega arith)

    pub paged_logits-eq :
        (max_model_len : ℕ) (empty : ℕ → Logit v.V)
        → token_start + token_count ≤ max_model_len
        → paged_logits v kv block_size head_dim num_heads q weights context_len block_table
            max_model_len token_start token_count empty
          ≡ some (tabulate at_position token_count token_start)
    unfolding paged_logits rowwise_logits
    paged_logits-eq max_model_len empty fits =
        let allowed : leb (token_start + token_count) max_model_len ≡ true = ground arith in
        elim (Bool-cases ((head_dim % 64 == 0) && (num_heads % 4 == 0))) [
          | inl e ↦
              rw (e, allowed)
                (ap some (all_stored 128 _ empty (omega arith) rowwise_logits_kernel-eq))
          | inr e ↦
              rw (e, allowed) (ap some (all_stored 64 _ empty (omega arith) paged_logits_kernel-eq))
        ]
