-- ===== src/SparseMla/D512/Split.antt =====
-- The three launches for one chunk leave the state of all the candidates below the valid length.
use glm_5_2_gb.Common.{
  ℕ, zero, suc, ◌*◌, ◌<◌, ◌≤◌, min, Bool, true, ◌≡◌, ◌⊎◌, inl, inr, refl, sym, ap, ◌∙◌, fun_ext,
  arith, ltb, leb, lt→ltb, if◌then◌else◌, Bool-cases, leb→le,
}
use glm_5_2_gb.Common.Int.{ℤ}
use glm_5_2_gb.Float.{Arith, IsExact}
use glm_5_2_gb.Softmax.{Logit, neg_inf, fin, State, Row, Candidates, value_sum}
use glm_5_2_gb.Softmax.Laws.{Holds}
use glm_5_2_gb.SparseMla.Accumulate.{cdiv}
use glm_5_2_gb.SparseMla.Accumulate.Loop.{candidates, score_of}
use glm_5_2_gb.SparseMla.Finish.{exp_or, maximum}
use glm_5_2_gb.Sm12x.KvCache.{tile_slot, tile_max, tile_sum}
use glm_5_2_gb.Sm12x.KvCache.Fused.{tiles-cover}
use glm_5_2_gb.Sm12x.KvCache.Candidates.{candidates-cut, dot-same}
use glm_5_2_gb.Sm12x.KvCache.Sums.{p}
use glm_5_2_gb.SparseMla.D512.Stores.{tile_store, grid, grid-tile_store, tile_store_past}
use glm_5_2_gb.SparseMla.D512.Named.{
  named_row, named_candidates, exp_or-eq, maximum-is_fin, Logit-cases,
}
use glm_5_2_gb.SparseMla.D512.Tiles.{tile-Holds, blocks-value_sum}
use glm_5_2_gb.SparseMla.D512.{
  loaded_row, new_score, masked_scores, safe_max, score_weight, split_score, split_stats, new_value,
  split_value, split_launches, BlockSizes, Buffers,
}

module _ {a : Arith} (laws : IsExact a) (nan : a.W) (head_dim num_heads num_kv_rows : ℕ)
    (scale : a.S) (q kv_flat : ℕ → Row a) (indices : ℕ → ℤ) (num_candidates valid_len : ℕ) where
  open a use {S, W, E, exp, zero_W, one_W, add_W, mul_W, mul_S, zero_S, zero_E, add_E, act}
  open laws use {zero-mul_W, act-zero, act-zero_E, act-add_E, zero-add_E, add_E_assoc}

  abbrev bound : ℕ
  bound = min valid_len num_candidates

  abbrev inside : ℕ → Bool
  inside j = ltb j bound

  abbrev row : ℕ → Row a
  row j = named_row a num_kv_rows kv_flat (indices j)

  abbrev score : ℕ → ℕ → S
  score head j = score_of a head_dim scale (q head) (row j)

  abbrev kv : ℕ → Row a
  kv =
      loaded_row a nan head_dim num_heads num_kv_rows scale q kv_flat indices num_candidates
        valid_len

  loaded_row-eq : (j d : ℕ) → inside j ≡ true → kv j d ≡ row j d
  unfolding loaded_row named_row tile_slot
  loaded_row-eq j d h = rw h refl

  abbrev scored : ℕ → ℕ → Logit S → Logit S
  scored =
      new_score a nan head_dim num_heads num_kv_rows scale q kv_flat indices num_candidates
        valid_len

  new_score-eq :
      (head j : ℕ) (old : Logit S)
      → head < num_heads
      → inside j ≡ true
      → scored head j old ≡ fin (score head j)
  unfolding new_score score_of
  new_score-eq head j old real h = rw (lt→ltb head num_heads real) (
      ap (λ s. fin (mul_S s scale))
        (dot-same laws head_dim (q head) (kv j) (row j) (λ d _. loaded_row-eq j d h)))

  module _ (b : BlockSizes) (bufs : Buffers a) (some_heads : 0 < b.head_block_size)
      (some_candidates : 0 < b.candidate_block_size) (some_values : 0 < b.value_block_size) where
    -- The early return of the kernel of the scores skips nothing.
    split_score-eq :
        (i j : ℕ) (mem : ℕ → ℕ → Logit S)
        → split_score a nan head_dim num_heads num_kv_rows scale q kv_flat indices num_candidates
            valid_len b.head_block_size b.candidate_block_size i j mem
          ≡ tile_store b.head_block_size num_heads b.candidate_block_size bound scored i j mem
    unfolding split_score tile_store
    split_score-eq i j mem = elim (Bool-cases (leb bound (j * b.candidate_block_size))) [
      | inr e ↦ rw e refl
      | inl e ↦ rw e (
          sym (
            tile_store_past b.head_block_size num_heads b.candidate_block_size bound scored i j mem
              (leb→le bound (j * b.candidate_block_size) e)))
    ]

    abbrev scores_after : ℕ → ℕ → Logit S
    scores_after =
        grid (cdiv num_heads b.head_block_size) (cdiv num_candidates b.candidate_block_size)
          (split_score a nan head_dim num_heads num_kv_rows scale q kv_flat indices num_candidates
            valid_len b.head_block_size b.candidate_block_size)
          bufs.scores

    scores_after-eq :
        (head j : ℕ) → head < num_heads → inside j ≡ true → scores_after head j ≡ fin (score head j)
    scores_after-eq head j real h =
        ap
          (λ (program : ℕ → ℕ → (ℕ → ℕ → Logit S) → ℕ → ℕ → Logit S).
            grid (cdiv num_heads b.head_block_size) (cdiv num_candidates b.candidate_block_size)
              program bufs.scores head j)
          (fun_ext (λ i. fun_ext (λ k. fun_ext (split_score-eq i k))))
        ∙ grid-tile_store b.head_block_size num_heads b.candidate_block_size bound scored
            (cdiv num_heads b.head_block_size) (cdiv num_candidates b.candidate_block_size)
            bufs.scores some_heads some_candidates
            (tiles-cover num_heads b.head_block_size some_heads)
            (let all = tiles-cover num_candidates b.candidate_block_size some_candidates in
              omega arith)
            head j
        ∙ rw (lt→ltb head num_heads real, h) (new_score-eq head j _ real h)

    abbrev masked : ℕ → ℕ → Logit S
    masked head =
        masked_scores a nan head_dim num_heads num_kv_rows scale q kv_flat indices num_candidates
          valid_len (scores_after head)

    masked-eq :
        (head j : ℕ)
        → head < num_heads
        → masked head j ≡ (if inside j then fin (score head j) else neg_inf)
    unfolding masked_scores
    masked-eq head j real = elim (Bool-cases (inside j)) [
      | inl h ↦ rw h (scores_after-eq head j real h)
      | inr h ↦ rw h refl
    ]

    module _ (width : ℕ) (wide : num_candidates ≤ width) (head : ℕ) (real : head < num_heads) where
      abbrev peak : Logit S
      peak = tile_max a width 0 (masked head)

      abbrev code_row : ℕ → Row a
      code_row cand d = if ltb d head_dim then kv cand d else zero_E

      abbrev code_weight : ℕ → W
      code_weight =
          score_weight a nan head_dim num_heads num_kv_rows scale q kv_flat indices num_candidates
            valid_len (scores_after head) peak

      abbrev weight : S → ℕ → W
      weight t j =
          p laws inside (score head) (masked head) (λ i. masked-eq head i real) row code_row t j

      -- Without a candidate there is no weight; with one the maximum is a number.
      peak-cases :
          (n : ℕ)
          → num_candidates ≤ n
          → (bound ≡ 0) ⊎ ((t : S) × (tile_max a n 0 (masked head) ≡ fin t))
      unfolding tile_max
      peak-cases zero h = inl (omega arith)
      peak-cases (suc n) h = elim (Bool-cases (inside 0)) [
        | inr e ↦ inl (ground arith)
        | inl e ↦
            let rest = tile_max a n 1 (masked head) in
            let first : masked head 0 ≡ fin (score head 0) = rw e at (masked-eq head 0 real) in
            let (t, e') = maximum-is_fin a (score head 0) rest in
            inr (t, ap (λ x. maximum a x rest) first ∙ e')
      ]

      peak-settled : (t : S) × ((peak ≡ neg_inf) ⊎ (peak ≡ fin t)) × ((bound ≡ 0) ⊎ (peak ≡ fin t))
      peak-settled = elim (peak-cases width wide) [
        | inr (t, e) ↦ (t, inr e, inr e)
        | inl none ↦ let (t, e) = Logit-cases a peak in (t, e, inl none)
      ]

      weight-eq : (t : S) (j : ℕ) → (bound ≡ 0) ⊎ (peak ≡ fin t) → code_weight j ≡ weight t j
      unfolding score_weight safe_max p
      weight-eq t j which = elim (Bool-cases (inside j)) [
        | inr e ↦ rw e refl
        | inl e ↦ elim which [
          | inl none ↦ absurd (ground arith)
          | inr top ↦
              let some : ltb 0 valid_len ≡ true = ground arith in
              rw (e, some)
                (ap (exp_or a nan (scores_after head j)) top
                  ∙ exp_or-eq a nan (scores_after head j) t)
        ]
      ]

      abbrev after_stats : ℕ → State a
      after_stats =
          split_stats a nan head_dim num_heads num_kv_rows scale q kv_flat indices num_candidates
            valid_len width scores_after bufs.states

      abbrev code_value : ℕ → E → E
      code_value =
          new_value a nan head_dim num_heads num_kv_rows scale q kv_flat indices num_candidates
            valid_len b.candidate_block_size scores_after after_stats head

      abbrev all_blocks : ℕ
      all_blocks = cdiv num_candidates b.candidate_block_size

      abbrev cands : ℕ → Candidates a
      cands n = candidates a inside (score head) row n 0

      row-eq : (j d : ℕ) → inside j ≡ true → d < head_dim → code_row j d ≡ row j d
      row-eq j d h k = rw (lt→ltb d head_dim k) (loaded_row-eq j d h)

      cands-eq :
          (n : ℕ)
          → bound ≤ n
          → cands n ≡ named_candidates a head_dim scale num_kv_rows (q head) kv_flat indices bound
      unfolding named_candidates
      cands-eq n h = candidates-cut a (λ i. true) (score head) row bound n 0 bound h (omega arith)

      value-eq :
          (t : S) (d : ℕ) (old : E)
          → d < head_dim
          → (bound ≡ 0) ⊎ (peak ≡ fin t)
          → act (exp t) (code_value d old)
            ≡ value_sum a (cands (all_blocks * b.candidate_block_size)) d
      unfolding new_value split_stats
      value-eq t d old h which =
          let from_zero : 0 * b.candidate_block_size ≡ 0 = omega arith in
          let blocks =
            blocks-value_sum laws (score head) (masked head) bound (λ i. masked-eq head i real) row
              code_row head_dim row-eq b.candidate_block_size t d h all_blocks 0 zero_E in
          rw (lt→ltb head num_heads real, fun_ext (λ j. weight-eq t j which))
            (rw from_zero at blocks
              ∙ ap (λ e. add_E e (value_sum a (cands (all_blocks * b.candidate_block_size)) d))
                  (act-zero_E (exp t))
              ∙ zero-add_E _)

      -- The state of a head after the launches.
      abbrev after : Row a → State a
      after acc = record { max_score = peak; denom = tile_sum a width 0 code_weight; acc = acc }

      after-Holds :
          (acc : Row a)
          → ((d : ℕ) → d < head_dim → (old : E) × (acc d ≡ code_value d old))
          → Holds a head_dim
              (named_candidates a head_dim scale num_kv_rows (q head) kv_flat indices bound)
              (after acc)
      after-Holds acc values =
          let (t, which, settled) = peak-settled in
          let all = tiles-cover num_candidates b.candidate_block_size some_candidates in
          let sums : tile_sum a width 0 code_weight ≡ tile_sum a width 0 (weight t) =
            ap (tile_sum a width 0) (fun_ext (λ j. weight-eq t j settled)) in
          rw (sums, ← cands-eq width (omega arith))
            (tile-Holds laws inside (score head) (masked head) (λ i. masked-eq head i real) row
              code_row head_dim row-eq width 0 peak t acc refl which
              (λ d h.
                let (old, e) = values d h in
                ap (act (exp t)) e
                ∙ value-eq t d old h settled
                ∙ ap (λ xs. value_sum a xs d)
                    (cands-eq (all_blocks * b.candidate_block_size) (omega arith)
                      ∙ sym (cands-eq width (omega arith)))))

    -- The launches, for a width of the statistics that covers the candidates.
    pub launches-Holds :
        (next_power_of_2 : ℕ → ℕ) (head : ℕ)
        → num_candidates ≤ next_power_of_2 num_candidates
        → head < num_heads
        → Holds a head_dim
            (named_candidates a head_dim scale num_kv_rows (q head) kv_flat indices bound)
            ((split_launches a nan head_dim num_heads num_kv_rows scale q kv_flat indices
                num_candidates valid_len next_power_of_2 b bufs).states
              head)
    unfolding split_launches split_value split_stats
    launches-Holds next_power_of_2 head wide real =
        let width : ℕ = next_power_of_2 num_candidates in
        rw (lt→ltb head num_heads real) (
          after-Holds width wide head real _ (λ d h. (
            (after_stats width wide head real head).acc d,
            grid-tile_store b.head_block_size num_heads b.value_block_size head_dim
                  (new_value a nan head_dim num_heads num_kv_rows scale q kv_flat indices
                    num_candidates valid_len b.candidate_block_size scores_after
                    (after_stats width wide head real))
                  (cdiv num_heads b.head_block_size) (cdiv head_dim b.value_block_size) _ some_heads
                  some_values (tiles-cover num_heads b.head_block_size some_heads)
                  (tiles-cover head_dim b.value_block_size some_values) head d
                ∙ rw (lt→ltb head num_heads real, lt→ltb d head_dim h) refl,
          )))
