-- ===== src/Sm12x/KvCache/Materialized.antt =====
-- The materialized kernels add what the fused kernel adds.
use glm_5_2_gb.Common.{
  ℕ, ◌+◌, ◌<◌, ◌≤◌, Bool, true, ◌≡◌, refl, ap, ◌∙◌, [], arith, lt→ltb, if◌then◌else◌, for_range,
  Bool-cases, inl, inr,
}
use glm_5_2_gb.Common.Int.{ℤ}
use glm_5_2_gb.Float.{Arith, IsExact}
use glm_5_2_gb.Softmax.{State, Row, step, blank}
use glm_5_2_gb.Softmax.Laws.{Holds, blank-Holds}
use glm_5_2_gb.SparseMla.Accumulate.{row_of, mask_row, visit}
use glm_5_2_gb.SparseMla.Accumulate.Lanes.{lanes-eq}
use glm_5_2_gb.SparseMla.Accumulate.Loop.{
  candidates, score_of, mask_row-inside, loop-Holds, visit-eq-step,
}
use glm_5_2_gb.Sm12x.KvCache.Candidates.{dot-same}
use glm_5_2_gb.Sm12x.KvCache.{
  Entry, EntryCasts, is_slot, entry_row, gather_dequant, materialized_body,
}

module _ {a : Arith} (laws : IsExact a) (scale : a.S) (head_dim block_d : ℕ)
    (fits : head_dim ≤ block_d) where
  -- What the kernel does for one head.
  unfoldable pub one_body : (ℕ → Row a) → (ℕ → Bool) → Row a → ℕ → State a → State a
  one_body kv valid q i st = if valid i then visit a head_dim block_d scale q (kv i) st else st

  pub materialized-eq :
      (queries kv : ℕ → Row a) (valid : ℕ → Bool) (n lane : ℕ) (lanes : ℕ → State a)
      → for_range n 0 (materialized_body a scale head_dim block_d queries kv valid) lanes lane
        ≡ for_range n 0 (one_body kv valid (queries lane)) (lanes lane)
  unfolding materialized_body one_body
  materialized-eq queries kv valid n lane lanes =
      lanes-eq (materialized_body a scale head_dim block_d queries kv valid)
        (one_body kv valid (queries lane)) lane same n 0 lanes
    where
      same :
          (i : ℕ) (sts : ℕ → State a)
          → materialized_body a scale head_dim block_d queries kv valid i sts lane
            ≡ one_body kv valid (queries lane) i (sts lane)
      same i sts = elim (Bool-cases (valid i)) [ inl e ↦ rw e refl | inr e ↦ rw e refl ]

  -- Gathered rows that are the valid candidates' rows.
  pub one_body-Holds :
      (q : Row a) (kv row : ℕ → Row a) (valid : ℕ → Bool) (n : ℕ)
      → ((i d : ℕ) → valid i ≡ true → d < head_dim → kv i d ≡ row i d)
      → Holds a head_dim
          (candidates a valid (λ i. score_of a head_dim scale q (row i)) row n 0)
          (for_range n 0 (one_body kv valid q) (blank a))
  unfolding one_body score_of
  one_body-Holds q kv row valid n same =
      loop-Holds laws (one_body kv valid q) valid (λ i. score_of a head_dim scale q (row i))
        (λ i. mask_row a head_dim (kv i)) row body-eq
        (λ i d v k. mask_row-inside laws (kv i) k ∙ same i d v k) n 0 [] (blank a)
        (blank-Holds laws)
    where
      body-eq :
          (i : ℕ) (st : State a)
          → one_body kv valid q i st ≡ (
              if valid i
              then step a st (score_of a head_dim scale q (row i)) (mask_row a head_dim (kv i))
              else st)
      body-eq i st = elim (Bool-cases (valid i)) [
        | inl v ↦ rw v (
            visit-eq-step laws head_dim block_d scale q (kv i) st fits
            ∙ ap (λ s. step a st (a.mul_S s scale) (mask_row a head_dim (kv i)))
                (dot-same laws head_dim q (kv i) (row i) (λ d k. same i d v k)))
        | inr v ↦ rw v refl
      ]

module _ {a : Arith} (casts : EntryCasts a) (e : Entry) (cache : ℕ → ℕ) (stride_cache_s : ℕ)
    (block_d total_slots : ℕ) (indices : ℕ → ℤ) (empty : ℕ → Row a) where
  -- A gathered row of a slot is the slot's.
  pub gather_dequant-eq :
      (k d : ℕ)
      → is_slot total_slots (indices k) ≡ true
      → d < e.nope_dim + e.rope_dim
      → e.nope_dim + e.rope_dim ≤ block_d
      → gather_dequant a casts e cache stride_cache_s block_d total_slots indices empty k d
        ≡ entry_row a casts e cache stride_cache_s (row_of (indices k)) d
  unfolding gather_dequant
  gather_dequant-eq k d v inside fits =
      let wide : d < block_d = omega arith in
      rw (lt→ltb d (e.nope_dim + e.rope_dim) inside, lt→ltb d block_d wide, v) refl
