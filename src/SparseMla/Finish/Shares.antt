-- ===== src/SparseMla/Finish/Shares.antt =====
-- The shares of finished subsets in their merge, by weights relative to any number.
use glm_5_2_gb.Common.{ℕ, true, ◌≡◌, refl, sym, ◌∙◌, Gives, ◌++◌, Bool-cases, inl, inr}
use glm_5_2_gb.Float.{Arith, IsExact}
use glm_5_2_gb.Softmax.{
  Logit, neg_inf, fin, Candidates, weight_sum, value_sum, exp_logit, attention, log_sum_exp,
}
use glm_5_2_gb.Softmax.Laws.{
  weight_sum-append, value_sum-append, value_sum_of_weightless, mul-zero_W, add-zero_W,
}
use glm_5_2_gb.SparseMla.Finish.{exp_diff}
use glm_5_2_gb.SparseMla.Finish.Laws.{attention_of_scaled}

module _ {a : Arith} (laws : IsExact a) where
  open a use {
    S, W, E, sub_S, max_S, exp, log, zero_S, zero_W, one_W, add_W, mul_W, div_W, pos, zero_E, add_E,
    act,
  }
  open laws use {
    exp-sub, exp-add-log, exp-log, pos-exp, pos-zero, zero_of_not_pos, pos-add, pos-mul, add_W_comm,
    add_W_assoc, zero-add_W, mul_W_comm, mul_W_assoc, one-mul_W, zero-mul_W, mul-add_W,
    mul-div_self, add_E_comm, add_E_assoc, zero-add_E, act-one, act-zero, act-zero_E, act-mul,
    act-add, act-add_E,
  }

  pub exp_diff_lem :
      (x : Logit S) (t : S) → Gives (λ y. mul_W (exp t) y ≡ exp_logit a x) (exp_diff a x (fin t))
  unfolding exp_diff exp_logit
  exp_diff_lem neg_inf t = mul-zero_W laws (exp t)
  exp_diff_lem (fin k) t = exp-sub k t

  -- The lse of a finished subset is the logarithm of its weight.
  pub exp-log_sum_exp : (xs : Candidates a) → exp_logit a (log_sum_exp a xs) ≡ weight_sum a xs
  unfolding log_sum_exp exp_logit
  exp-log_sum_exp xs = elim (Bool-cases (pos (weight_sum a xs))) [
    | inl e ↦ rw e (exp-log (weight_sum a xs) e)
    | inr e ↦ rw e (sym (zero_of_not_pos (weight_sum a xs) e))
  ]

  -- An output scaled by its weight is the sum of the values.
  pub act-attention :
      (xs : Candidates a) (d : ℕ)
      → act (weight_sum a xs) (attention a xs neg_inf d) ≡ value_sum a xs d
  unfolding attention exp_logit
  act-attention xs d =
      rw (add-zero_W laws (weight_sum a xs)) (elim (Bool-cases (pos (weight_sum a xs))) [
        | inl e ↦
            rw e (sym (act-mul _ _ _) ∙ rw (laws.mul-div_self (weight_sum a xs) e) (act-one _))
        | inr e ↦ rw e (act-zero_E _ ∙ sym (value_sum_of_weightless laws xs d e))
      ])

  -- One dimension of the merge, by weights relative to `t`.
  pub merge_row :
      (xs ys : Candidates a) (sink : Logit S) (t : S) (x0 x1 y : W) (o0 o1 : E) (d : ℕ)
      → mul_W (exp t) x0 ≡ weight_sum a xs
      → mul_W (exp t) x1 ≡ weight_sum a ys
      → mul_W (exp t) y ≡ exp_logit a sink
      → o0 ≡ attention a xs neg_inf d
      → o1 ≡ attention a ys neg_inf d
      → pos (add_W (weight_sum a (xs ++ ys)) (exp_logit a sink)) ≡ true
      → a.quot (add_E (act x0 o0) (act x1 o1)) (add_W (add_W x0 x1) y)
        ≡ attention a (xs ++ ys) sink d
  merge_row xs ys sink t x0 x1 y o0 o1 d q0 q1 q p0 p1 h =
      let total : mul_W (exp t) (add_W (add_W x0 x1) y)
          ≡ add_W (weight_sum a (xs ++ ys)) (exp_logit a sink) =
        rw (mul-add_W, mul-add_W, q0, q1, q, weight_sum-append laws xs ys) refl in
      let both : pos (mul_W (exp t) (add_W (add_W x0 x1) y)) ≡ true = rw total h in
      let positive : pos (add_W (add_W x0 x1) y) ≡ true =
        rw (pos-mul (exp t) (add_W (add_W x0 x1) y), pos-exp t) at both in
      let num : E = add_E (act x0 o0) (act x1 o1) in
      let sums : act (exp t) num ≡ value_sum a (xs ++ ys) d =
        act-add_E (exp t) (act x0 o0) (act x1 o1)
        ∙ rw
            (
              ← act-mul,
              ← act-mul,
              q0,
              q1,
              p0,
              p1,
              act-attention xs d,
              act-attention ys d,
              value_sum-append laws xs ys d,
            )
            refl in
      laws.quot-eq-act num (add_W (add_W x0 x1) y) positive
      ∙ rw positive at
          (attention_of_scaled laws (xs ++ ys) sink t (add_W (add_W x0 x1) y) num d total sums)
