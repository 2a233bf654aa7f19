-- ===== src/SparseMla/D512/Tiles.antt =====
-- A state with the maximum and the sums of a tile, and values summed by blocks of candidates.
use glm_5_2_gb.Common.{
  ℕ, zero, suc, ◌+◌, ◌*◌, ◌<◌, ◌≤◌, Bool, true, ◌≡◌, ◌⊎◌, inl, inr, refl, sym, ap, ◌∙◌, arith, ltb,
  if◌then◌else◌, for_range, Bool-cases,
}
use glm_5_2_gb.Float.{Arith, IsExact}
use glm_5_2_gb.Softmax.{
  Logit, neg_inf, fin, Row, Candidates, exp_logit, value_sum, weight_sum, max_logit,
}
use glm_5_2_gb.Softmax.Laws.{Holds, value_sum-append}
use glm_5_2_gb.SparseMla.Accumulate.Loop.{candidates}
use glm_5_2_gb.SparseMla.Accumulate.Chunk.{candidates-add}
use glm_5_2_gb.Sm12x.KvCache.{tile_max, tile_sum, tile_dot}
use glm_5_2_gb.Sm12x.KvCache.Candidates.{candidates-past}
use glm_5_2_gb.Sm12x.KvCache.Maximum.{fin-inj, fin-neg}
use glm_5_2_gb.Sm12x.KvCache.Sums.{
  p, tile_max-eq, tile_sum-eq, tile_max-empty, tile_sum-floor, tile_dot-eq,
}

module _ {a : Arith} (laws : IsExact a) where
  open a use {S, W, E, exp, zero_W, one_W, add_W, mul_W, zero_E, add_E, act}
  open laws use {zero-mul_W, act-zero, act-zero_E, act-add_E, zero-add_E, add_E_assoc}

  module _ (valid : ℕ → Bool) (score : ℕ → S) (scores : ℕ → Logit S)
      (scored : (j : ℕ) → scores j ≡ (if valid j then fin (score j) else neg_inf))
      (row kv : ℕ → Row a) (dim : ℕ)
      (same : (j d : ℕ) → valid j ≡ true → d < dim → kv j d ≡ row j d) where
    abbrev cands : ℕ → ℕ → Candidates a
    cands n i = candidates a valid score row n i

    abbrev weights : S → ℕ → W
    weights t j = p laws valid score scores scored row kv t j

    -- A state that holds the maximum and the sums of one tile holds its candidates.
    pub tile-Holds :
        (n i : ℕ) (m : Logit S) (t : S) (acc : Row a)
        → tile_max a n i scores ≡ m
        → (m ≡ neg_inf) ⊎ (m ≡ fin t)
        → ((d : ℕ) → d < dim → act (exp t) (acc d) ≡ value_sum a (cands n i) d)
        → Holds a dim
            (cands n i)
            (record { max_score = m; denom = tile_sum a n i (weights t); acc = acc })
    unfolding exp_logit weight_sum value_sum
    tile-Holds n i neg_inf t acc e which values =
        let (sum, none_left) = tile_max-empty laws valid score scores scored row kv t n i e in
        rw none_left (record {
          represents = record { weight = zero-mul_W _; values = λ d k. act-zero (acc d) };
          settled = λ _. sum;
          peak =
              sym e
              ∙ tile_max-eq laws valid score scores scored row kv n i
              ∙ ap (λ xs. max_logit a xs neg_inf) none_left;
          floor = inl refl;
        })
    tile-Holds n i (fin m) t acc e (inl h) values = absurd (fin-neg laws m h)
    tile-Holds n i (fin m) t acc e (inr h) values =
        let here : m ≡ t = fin-inj laws m t h in
        record {
          represents = record {
            weight = rw here (tile_sum-eq laws valid score scores scored row kv t n i);
            values = λ d k. rw here (values d k);
          };
          settled = λ h'. absurd (fin-neg laws m h');
          peak = sym e ∙ tile_max-eq laws valid score scores scored row kv n i;
          floor = inr (tile_sum-floor laws valid score scores scored row kv t n i (e ∙ h));
        }

  -- A loop over the blocks of candidates that skips those past the bound.
  module _ (score : ℕ → S) (scores : ℕ → Logit S) (bound : ℕ)
      (scored : (j : ℕ) → scores j ≡ (if ltb j bound then fin (score j) else neg_inf))
      (row kv : ℕ → Row a) (dim : ℕ)
      (same : (j d : ℕ) → ltb j bound ≡ true → d < dim → kv j d ≡ row j d) where
    abbrev bounded : ℕ → ℕ → Candidates a
    bounded n i = candidates a (λ j. ltb j bound) score row n i

    abbrev block_weights : S → ℕ → W
    block_weights t j = p laws (λ i. ltb i bound) score scores scored row kv t j

    pub blocks-value_sum :
        (block_c : ℕ) (t : S) (d : ℕ)
        → d < dim
        → (n k : ℕ) (acc : E)
        → act (exp t) (
            for_range n k
              (λ i acc'.
                if ltb (i * block_c) bound
                then add_E acc' (tile_dot a block_c (i * block_c) (block_weights t) (λ j. kv j d))
                else acc')
              acc)
          ≡ add_E (act (exp t) acc) (value_sum a (bounded (n * block_c) (k * block_c)) d)
    unfolding for_range value_sum candidates
    blocks-value_sum block_c t d h zero k acc =
        let none_left : zero * block_c ≡ 0 = omega arith in
        rw none_left (sym (laws.add_E_comm _ _ ∙ zero-add_E (act (exp t) acc)))
    blocks-value_sum block_c t d h (suc n) k acc =
        let more : suc n * block_c ≡ block_c + n * block_c = omega arith in
        let next : k * block_c + block_c ≡ suc k * block_c = omega arith in
        let tile = tile_dot a block_c (k * block_c) (block_weights t) (λ j. kv j d) in
        let first = bounded block_c (k * block_c) in
        let rest = value_sum a (bounded (n * block_c) (suc k * block_c)) d in
        let acc' = if ltb (k * block_c) bound then add_E acc tile else acc in
        let here : act (exp t) acc' ≡ add_E (act (exp t) acc) (value_sum a first d) =
          elim (Bool-cases (ltb (k * block_c) bound)) [
            | inl e ↦ rw e (
                act-add_E (exp t) acc tile
                ∙ ap (add_E (act (exp t) acc)) (
                    tile_dot-eq laws (λ i. ltb i bound) score scores scored row kv dim same t
                      block_c (k * block_c) d h))
            | inr e ↦
                let past : bound ≤ k * block_c = ground arith in
                rw (e, candidates-past a (λ j. true) score row block_c (k * block_c) bound past)
                  (sym (laws.add_E_comm _ _ ∙ zero-add_E (act (exp t) acc)))
          ] in
        blocks-value_sum block_c t d h n (suc k) acc'
        ∙ ap (λ x. add_E x rest) here
        ∙ add_E_assoc (act (exp t) acc) (value_sum a first d) rest
        ∙ ap (add_E (act (exp t) acc)) (
            sym (value_sum-append laws first _ d)
            ∙ ap (λ xs. value_sum a xs d)
                (candidates-add a (λ j. ltb j bound) score row block_c (n * block_c) (k * block_c)
                    (suc k * block_c) next
                  ∙ ap (λ m. bounded m (k * block_c)) (sym more)))
