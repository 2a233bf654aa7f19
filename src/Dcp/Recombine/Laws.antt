-- ===== src/Dcp/Recombine/Laws.antt =====
-- Two disjoint shards' results merge into the attention over both.
use glm_5_2_gb.Common.{
  ℕ, true, ◌≡◌, refl, sym, ap, ◌∙◌, some, ◌>>=◌, Option, Gives, Gives-bind, ◌++◌,
}
use glm_5_2_gb.Float.{Arith, IsExact}
use glm_5_2_gb.Softmax.{Logit, neg_inf, fin, Row, Candidates, weight_sum, exp_logit, log_sum_exp}
use glm_5_2_gb.Softmax.Laws.{weight_sum-append, mul-zero_W, add-zero_W}
use glm_5_2_gb.SparseMla.Finish.{maximum, exp_diff, add_log}
use glm_5_2_gb.SparseMla.Finish.Laws.{IsAttention}
use glm_5_2_gb.SparseMla.Finish.Shares.{merge_row, exp_diff_lem, exp-log_sum_exp}
use glm_5_2_gb.Dcp.Recombine.{recombine}

module _ {a : Arith} (laws : IsExact a) where
  open a use {S, W, exp, add_W, mul_W, zero_W, pos}

  -- `recombine`, once the maximum is known to be the number `t`.
  abbrev recombine_at : Row a → Logit S → Row a → Logit S → S → Option (Row a × Logit S)
  recombine_at out_a lse_a out_b lse_b t = do
    wa ← exp_diff a lse_a (fin t)
    wb ← exp_diff a lse_b (fin t)
    let total = add_W wa wb
    some (
      λ d. a.quot (a.add_E (a.act wa (out_a d)) (a.act wb (out_b d))) total,
      add_log a (fin t) total,
    )

  recombine-eq-recombine_at :
      (xs ys : Candidates a) (out_a out_b : Row a) (lse_a lse_b : Logit S)
      → exp_logit a lse_a ≡ weight_sum a xs
      → exp_logit a lse_b ≡ weight_sum a ys
      → pos (weight_sum a (xs ++ ys)) ≡ true
      → (t : S) × (recombine a out_a lse_a out_b lse_b ≡ recombine_at out_a lse_a out_b lse_b t)
  unfolding recombine exp_logit maximum
  recombine-eq-recombine_at xs ys out_a out_b neg_inf neg_inf e0 e1 h =
      let nothing : pos zero_W ≡ true =
        rw (weight_sum-append laws xs ys, ← e0, ← e1, laws.zero-add_W) at h in
      cc laws.pos-zero
  recombine-eq-recombine_at xs ys out_a out_b neg_inf (fin n) e0 e1 h = (n, refl)
  recombine-eq-recombine_at xs ys out_a out_b (fin m) neg_inf e0 e1 h = (m, refl)
  recombine-eq-recombine_at xs ys out_a out_b (fin m) (fin n) e0 e1 h = (a.max_S m n, refl)

  -- The lse of the merge.
  merged-lse :
      (xs : Candidates a) (t : S) (w : W)
      → mul_W (exp t) w ≡ weight_sum a xs
      → pos (weight_sum a xs) ≡ true
      → add_log a (fin t) w ≡ log_sum_exp a xs
  unfolding add_log log_sum_exp
  merged-lse xs t w e h =
      let both : pos (mul_W (exp t) w) ≡ true = rw e h in
      let positive : pos w ≡ true = rw (laws.pos-mul (exp t) w, laws.pos-exp t) at both in
      rw h (ap fin (laws.exp-add-log t w positive ∙ ap a.log e))

  recombine_at_lem :
      {dim : ℕ} (xs ys : Candidates a) (out_a out_b : Row a) (lse_a lse_b : Logit S) (t : S)
      → IsAttention a dim xs neg_inf out_a
      → IsAttention a dim ys neg_inf out_b
      → exp_logit a lse_a ≡ weight_sum a xs
      → exp_logit a lse_b ≡ weight_sum a ys
      → pos (weight_sum a (xs ++ ys)) ≡ true
      → Gives
          (λ r. IsAttention a dim (xs ++ ys) neg_inf r.0 × (r.1 ≡ log_sum_exp a (xs ++ ys)))
          (recombine_at out_a lse_a out_b lse_b t)
  unfolding exp_logit
  recombine_at_lem xs ys out_a out_b lse_a lse_b t p0 p1 e0 e1 h =
      Gives-bind _ (exp_diff a lse_a (fin t)) _ (exp_diff_lem laws lse_a t) λ x0 q0.
        Gives-bind _ (exp_diff a lse_b (fin t)) _ (exp_diff_lem laws lse_b t) λ x1 q1. (
          λ d k.
              ap (a.quot _) (sym (add-zero_W laws (add_W x0 x1)))
              ∙ merge_row laws xs ys neg_inf t x0 x1 zero_W (out_a d) (out_b d) d (q0 ∙ e0)
                  (q1 ∙ e1) (mul-zero_W laws (exp t)) (p0 d k) (p1 d k)
                  (ap pos (add-zero_W laws (weight_sum a (xs ++ ys))) ∙ h),
          merged-lse (xs ++ ys) t (add_W x0 x1)
              (laws.mul-add_W (exp t) x0 x1
                ∙ rw (q0, q1, e0, e1, weight_sum-append laws xs ys) refl)
              h,
        )

  -- Two results that are the attention over two lists of candidates, with those candidates' lse,
  -- of which one has a candidate: their merge by lse gives no NaN, the attention over both lists,
  -- and the logsumexp of both.
  pub recombine_lem :
      {dim : ℕ} (xs ys : Candidates a) (out_a out_b : Row a) (lse_a lse_b : Logit S)
      → IsAttention a dim xs neg_inf out_a
      → IsAttention a dim ys neg_inf out_b
      → lse_a ≡ log_sum_exp a xs
      → lse_b ≡ log_sum_exp a ys
      → pos (weight_sum a (xs ++ ys)) ≡ true
      → Gives
          (λ r. IsAttention a dim (xs ++ ys) neg_inf r.0 × (r.1 ≡ log_sum_exp a (xs ++ ys)))
          (recombine a out_a lse_a out_b lse_b)
  recombine_lem xs ys out_a out_b lse_a lse_b p0 p1 l0 l1 h =
      let e0 = ap (exp_logit a) l0 ∙ exp-log_sum_exp laws xs in
      let e1 = ap (exp_logit a) l1 ∙ exp-log_sum_exp laws ys in
      let (t, e) = recombine-eq-recombine_at xs ys out_a out_b lse_a lse_b e0 e1 h in
      rw e (recombine_at_lem xs ys out_a out_b lse_a lse_b t p0 p1 e0 e1 h)
