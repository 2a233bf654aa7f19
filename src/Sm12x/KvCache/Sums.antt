-- ===== src/Sm12x/KvCache/Sums.antt =====
-- The reductions over a tile are the sums over its valid candidates.
use glm_5_2_gb.Common.{
  ℕ, zero, suc, ◌<◌, Bool, true, false, ◌≡◌, inl, inr, refl, sym, ap, ◌∙◌, [], if◌then◌else◌,
  Bool-cases,
}
use mathlib.Core.Path.{ap₂}
use glm_5_2_gb.Float.{Arith, IsExact}
use glm_5_2_gb.Softmax.{
  Logit, neg_inf, fin, Row, Candidates, next_max, exp_below, weight_sum, value_sum, max_logit,
}
use glm_5_2_gb.Softmax.Laws.{exp_self, mul-zero_W}
use glm_5_2_gb.SparseMla.Accumulate.Loop.{candidates}
use glm_5_2_gb.SparseMla.Finish.{maximum}
use glm_5_2_gb.Sm12x.KvCache.Maximum.{
  max_logit-eq, maximum-cases, maximum-fin_neg, fin-inj, left_comm,
}
use glm_5_2_gb.Sm12x.KvCache.{tile_max, tile_sum, tile_dot}

module _ {a : Arith} (laws : IsExact a) where
  open a use {S, W, E, sub_S, exp, zero_W, one_W, add_W, mul_W, zero_E, add_E, act}
  open laws use {
    exp-sub, mul_W_comm, one-mul_W, zero-mul_W, mul-add_W, add_W_comm, add_W_assoc, zero-add_W,
    act-zero, act-zero_E, act-mul, act-add_E, zero-add_E,
  }

  module _ (valid : ℕ → Bool) (score : ℕ → S) (scores : ℕ → Logit S)
      (scored : (j : ℕ) → scores j ≡ (if valid j then fin (score j) else neg_inf))
      (row kv : ℕ → Row a) where
    abbrev pub cands : ℕ → ℕ → Candidates a
    cands n i = candidates a valid score row n i

    -- `tl.exp(scores - safe_next)`, where the candidate is valid
    unfoldable pub p : S → ℕ → W
    p t j = if valid j then exp_below a (scores j) t else zero_W

    p_of_valid : (t : S) (j : ℕ) → valid j ≡ true → p t j ≡ exp (sub_S (score j) t)
    unfolding p exp_below
    p_of_valid t j v = rw (v, scored j, v) refl

    p_of_invalid : (t : S) (j : ℕ) → valid j ≡ false → p t j ≡ zero_W
    unfolding p
    p_of_invalid t j v = rw v refl

    pub tile_max-eq : (n i : ℕ) → tile_max a n i scores ≡ max_logit a (cands n i) neg_inf
    unfolding tile_max candidates max_logit next_max maximum
    tile_max-eq zero i = refl
    tile_max-eq (suc n) i = elim (Bool-cases (valid i)) [
      | inl v ↦
          rw (scored i, v, tile_max-eq n (suc i))
            (sym (max_logit-eq laws (cands n (suc i)) (fin (score i))))
      | inr v ↦ rw (scored i, v) (tile_max-eq n (suc i))
    ]

    pub tile_sum-eq :
        (t : S) (n i : ℕ) → mul_W (exp t) (tile_sum a n i (p t)) ≡ weight_sum a (cands n i)
    unfolding tile_sum candidates weight_sum
    tile_sum-eq t zero i = mul-zero_W laws (exp t)
    tile_sum-eq t (suc n) i = elim (Bool-cases (valid i)) [
      | inl v ↦ rw v (
          ap (λ w. mul_W (exp t) (add_W w (tile_sum a n (suc i) (p t)))) (p_of_valid t i v)
          ∙ mul-add_W (exp t) (exp (sub_S (score i) t)) (tile_sum a n (suc i) (p t))
          ∙ ap₂ add_W (exp-sub (score i) t) (tile_sum-eq t n (suc i)))
      | inr v ↦ rw v (
          ap (λ w. mul_W (exp t) (add_W w (tile_sum a n (suc i) (p t)))) (p_of_invalid t i v)
          ∙ ap (mul_W (exp t)) (zero-add_W (tile_sum a n (suc i) (p t)))
          ∙ tile_sum-eq t n (suc i))
    ]

    -- A tile without a valid candidate.
    pub tile_max-empty :
        (t : S) (n i : ℕ)
        → tile_max a n i scores ≡ neg_inf
        → (tile_sum a n i (p t) ≡ zero_W) × (cands n i ≡ [])
    unfolding tile_max tile_sum candidates maximum
    tile_max-empty t zero i h = (refl, refl)
    tile_max-empty t (suc n) i h = elim (Bool-cases (valid i)) [
      | inl v ↦
          absurd
            (maximum-fin_neg laws (score i) (tile_max a n (suc i) scores) (rw (scored i, v) at h))
      | inr v ↦
          let (sum, none) = tile_max-empty t n (suc i) (rw (scored i, v) at h) in
          (ap₂ add_W (p_of_invalid t i v) sum ∙ zero-add_W zero_W, rw v none)
    ]

    -- The candidate with the largest score of a tile weighs 1.
    pub tile_sum-floor :
        (t : S) (n i : ℕ)
        → tile_max a n i scores ≡ fin t
        → (w : W) × (tile_sum a n i (p t) ≡ add_W one_W w)
    unfolding tile_max tile_sum maximum
    tile_sum-floor t zero i h = cc
    tile_sum-floor t (suc n) i h = elim (Bool-cases (valid i)) [
      | inl v ↦
          elim (maximum-cases laws (fin (score i)) (tile_max a n (suc i) scores) t
            (rw (scored i, v) at h)) [
              | inl here ↦ (
                tile_sum a n (suc i) (p t),
                ap (λ w. add_W w (tile_sum a n (suc i) (p t)))
                    (p_of_valid t i v
                      ∙ ap (λ s. exp (sub_S s t)) (fin-inj laws (score i) t here)
                      ∙ exp_self laws t),
              )
              | inr later ↦
                  let (w, e) = tile_sum-floor t n (suc i) later in
                  (add_W (p t i) w, ap (add_W (p t i)) e ∙ left_comm laws (p t i) one_W w)
            ]
      | inr v ↦
          let (w, e) = tile_sum-floor t n (suc i) (rw (scored i, v) at h) in
          (w, ap₂ add_W (p_of_invalid t i v) e ∙ zero-add_W (add_W one_W w))
    ]

    module _ (dim : ℕ) (same : (j d : ℕ) → valid j ≡ true → d < dim → kv j d ≡ row j d) where
      pub tile_dot-eq :
          (t : S) (n i d : ℕ)
          → d < dim
          → act (exp t) (tile_dot a n i (p t) (λ j. kv j d)) ≡ value_sum a (cands n i) d
      unfolding tile_dot candidates value_sum
      tile_dot-eq t zero i d h = act-zero_E (exp t)
      tile_dot-eq t (suc n) i d h =
          let rest = tile_dot a n (suc i) (p t) (λ j. kv j d) in
          elim (Bool-cases (valid i)) [
            | inl v ↦ rw v (
                ap (λ w. act (exp t) (add_E (act w (kv i d)) rest)) (p_of_valid t i v)
                ∙ act-add_E (exp t) (act (exp (sub_S (score i) t)) (kv i d)) rest
                ∙ ap₂ add_E
                    (sym (act-mul (exp t) (exp (sub_S (score i) t)) (kv i d))
                      ∙ ap₂ act (exp-sub (score i) t) (same i d v h))
                    (tile_dot-eq t n (suc i) d h))
            | inr v ↦ rw v (
                ap (λ w. act (exp t) (add_E (act w (kv i d)) rest)) (p_of_invalid t i v)
                ∙ ap (λ x. act (exp t) (add_E x rest)) (act-zero (kv i d))
                ∙ ap (act (exp t)) (zero-add_E rest)
                ∙ tile_dot-eq t n (suc i) d h)
          ]
