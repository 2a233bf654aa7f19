-- ===== src/SparseMla/Finish/Merge.antt =====
-- Two states, or two finished subsets, merge into the attention of all their candidates.
use glm_5_2_gb.Common.{
  ℕ, true, false, ◌≡◌, ◌⊎◌, refl, ap, ◌∙◌, some, Gives, Gives-bind, ◌++◌, if◌then◌else◌, Bool-cases,
  inl, inr, Option, ◌>>=◌,
}
use glm_5_2_gb.Float.{Arith, IsExact}
use glm_5_2_gb.Softmax.{
  Logit, neg_inf, fin, State, Row, Candidates, weight_sum, exp_logit, log_sum_exp,
}
use glm_5_2_gb.Softmax.Laws.{IsSettled, Holds, weight_sum-append, value_sum-append}
use glm_5_2_gb.SparseMla.Finish.{
  finish_two_attention_states_with_sink, merge_two_subsets_with_sink, exp_diff,
}
use glm_5_2_gb.SparseMla.Finish.Laws.{
  IsAttention, scale_of, sink_scale, scale_of-IsShare, sink_scale_lem, attention_of_scaled,
}
use glm_5_2_gb.SparseMla.Finish.Shares.{exp_diff_lem, exp-log_sum_exp, merge_row}

module _ (a : Arith) where
  open a use {S, W, E, add_W, mul_W, div_W, one_W, pos, zero_W, zero_E, add_E, act}

  -- The kernel for two states, once the maximum is known to be the number `t`.
  pub finish_two_at : State a → State a → Logit S → S → Option (Row a)
  finish_two_at st0 st1 sink t = do
    scale0 ← scale_of a st0 t
    scale1 ← scale_of a st1 t
    sink_weight ← sink_scale a sink t
    let total_weight = add_W (add_W (mul_W st0.denom scale0) (mul_W st1.denom scale1)) sink_weight
    let inv_total = if pos total_weight then div_W one_W total_weight else zero_W
    some (λ d. act inv_total (
        add_E (act scale0 (if pos st0.denom then st0.acc d else zero_E))
          (act scale1 (if pos st1.denom then st1.acc d else zero_E))))

module _ {a : Arith} (laws : IsExact a) where
  open a use {
    S, W, E, sub_S, max_S, exp, log, zero_S, zero_W, one_W, add_W, mul_W, div_W, pos, zero_E, add_E,
    act,
  }
  open laws use {
    exp-sub, exp-add-log, exp-log, pos-exp, pos-zero, zero_of_not_pos, pos-add, pos-mul, add_W_comm,
    add_W_assoc, zero-add_W, mul_W_comm, mul_W_assoc, one-mul_W, zero-mul_W, mul-add_W,
    mul-div_self, add_E_comm, add_E_assoc, zero-add_E, act-one, act-zero, act-zero_E, act-mul,
    act-add, act-add_E,
  }

  finish_two_at-IsAttention :
      {dim : ℕ} {xs ys : Candidates a} (st0 st1 : State a) (sink : Logit S) (t : S)
      → Holds a dim xs st0
      → Holds a dim ys st1
      → Gives (IsAttention a dim (xs ++ ys) sink) (finish_two_at a st0 st1 sink t)
  unfolding finish_two_at
  finish_two_at-IsAttention {xs} {ys} st0 st1 sink t h0 h1 =
      Gives-bind _ (scale_of a st0 t) _ (scale_of-IsShare laws st0 t h0) λ x0 share0.
        Gives-bind _ (scale_of a st1 t) _ (scale_of-IsShare laws st1 t h1) λ x1 share1.
          Gives-bind _ (sink_scale a sink t) _ (sink_scale_lem laws sink t) λ y e d k.
            attention_of_scaled laws (xs ++ ys) sink t _ _ d
              (rw
                (
                  mul-add_W,
                  mul-add_W,
                  share0.weight,
                  share1.weight,
                  e,
                  weight_sum-append laws xs ys,
                )
                refl)
              (act-add_E (exp t) _ _
                ∙ rw (share0.values d k, share1.values d k, value_sum-append laws xs ys d) refl)

  -- The number that the kernel takes for the maximum.
  finish_two-eq-finish_two_at :
      (m0 m1 sink : Logit S) (w0 w1 : W) (acc0 acc1 : ℕ → E)
      → let st0 : State a = record { max_score = m0; denom = w0; acc = acc0 } in
        let st1 : State a = record { max_score = m1; denom = w1; acc = acc1 } in
        IsSettled a st0
        → IsSettled a st1
        → (pos w0 ≡ true) ⊎ (pos w0 ≡ false)
        → (pos w1 ≡ true) ⊎ (pos w1 ≡ false)
        → (t : S) × (finish_two_attention_states_with_sink a st0 st1 sink
            ≡ finish_two_at a st0 st1 sink t)
  unfolding finish_two_at finish_two_attention_states_with_sink scale_of sink_scale
  finish_two-eq-finish_two_at neg_inf m1 sink w0 w1 acc0 acc1 h0 h1 (inl e0) e1 =
      let e' : pos zero_W ≡ true = rw (← h0 refl) e0 in cc pos-zero
  finish_two-eq-finish_two_at m0 neg_inf sink w0 w1 acc0 acc1 h0 h1 e0 (inl e1) =
      let e' : pos zero_W ≡ true = rw (← h1 refl) e1 in cc pos-zero
  finish_two-eq-finish_two_at (fin m) (fin n) (fin k) w0 w1 acc0 acc1 h0 h1 (inl e0) (inl e1) =
      (max_S (max_S m n) k, rw (e0, e1))
  finish_two-eq-finish_two_at (fin m) (fin n) neg_inf w0 w1 acc0 acc1 h0 h1 (inl e0) (inl e1) =
      (max_S m n, rw (e0, e1))
  finish_two-eq-finish_two_at (fin m) m1 (fin k) w0 w1 acc0 acc1 h0 h1 (inl e0) (inr e1) =
      (max_S m k, rw (e0, e1))
  finish_two-eq-finish_two_at (fin m) m1 neg_inf w0 w1 acc0 acc1 h0 h1 (inl e0) (inr e1) =
      (m, rw (e0, e1))
  finish_two-eq-finish_two_at m0 (fin n) (fin k) w0 w1 acc0 acc1 h0 h1 (inr e0) (inl e1) =
      (max_S n k, rw (e0, e1))
  finish_two-eq-finish_two_at m0 (fin n) neg_inf w0 w1 acc0 acc1 h0 h1 (inr e0) (inl e1) =
      (n, rw (e0, e1))
  finish_two-eq-finish_two_at m0 m1 (fin k) w0 w1 acc0 acc1 h0 h1 (inr e0) (inr e1) =
      (k, rw (e0, e1))
  finish_two-eq-finish_two_at m0 m1 neg_inf w0 w1 acc0 acc1 h0 h1 (inr e0) (inr e1) =
      (zero_S, rw (e0, e1))

  -- From two states that stand for candidates, the finishing kernel for two states and a sink
  -- gives no NaN, and the attention over the candidates of both.
  pub finish_two-IsAttention :
      {dim : ℕ} {xs ys : Candidates a} (st0 st1 : State a) (sink : Logit S)
      → Holds a dim xs st0
      → Holds a dim ys st1
      → Gives
          (IsAttention a dim (xs ++ ys) sink)
          (finish_two_attention_states_with_sink a st0 st1 sink)
  finish_two-IsAttention st0 st1 sink h0 h1 =
      let (t, e) =
        finish_two-eq-finish_two_at st0.max_score st1.max_score sink st0.denom st1.denom st0.acc
          st1.acc h0.settled h1.settled (Bool-cases (pos st0.denom)) (Bool-cases (pos st1.denom)) in
      rw e (finish_two_at-IsAttention st0 st1 sink t h0 h1)

  -- `merge_two_subsets_with_sink`, once the maximum is known to be the number `t`.
  abbrev merge_at : Row a → Logit S → Row a → Logit S → Logit S → S → Option (Row a)
  merge_at out0 lse0 out1 lse1 sink t = do
    weight0 ← exp_diff a lse0 (fin t)
    weight1 ← exp_diff a lse1 (fin t)
    weight_sink ← exp_diff a sink (fin t)
    let denom = add_W (add_W weight0 weight1) weight_sink
    some (λ d. a.quot (add_E (act weight0 (out0 d)) (act weight1 (out1 d))) denom)

  merge_at-IsAttention :
      {dim : ℕ} (xs ys : Candidates a) (out0 out1 : Row a) (lse0 lse1 sink : Logit S) (t : S)
      → IsAttention a dim xs neg_inf out0
      → IsAttention a dim ys neg_inf out1
      → exp_logit a lse0 ≡ weight_sum a xs
      → exp_logit a lse1 ≡ weight_sum a ys
      → pos (add_W (weight_sum a (xs ++ ys)) (exp_logit a sink)) ≡ true
      → Gives (IsAttention a dim (xs ++ ys) sink) (merge_at out0 lse0 out1 lse1 sink t)
  merge_at-IsAttention xs ys out0 out1 lse0 lse1 sink t p0 p1 e0 e1 h =
      Gives-bind _ (exp_diff a lse0 (fin t)) _ (exp_diff_lem laws lse0 t) λ x0 q0.
        Gives-bind _ (exp_diff a lse1 (fin t)) _ (exp_diff_lem laws lse1 t) λ x1 q1.
          Gives-bind _ (exp_diff a sink (fin t)) _ (exp_diff_lem laws sink t) λ y q d k.
            merge_row laws xs ys sink t x0 x1 y (out0 d) (out1 d) d (q0 ∙ e0) (q1 ∙ e1) q (p0 d k)
              (p1 d k) h

  -- The number that the kernel takes for the maximum: there is one, since there is weight.
  merge_two-eq-merge_at :
      (xs ys : Candidates a) (out0 out1 : Row a) (lse0 lse1 sink : Logit S)
      → exp_logit a lse0 ≡ weight_sum a xs
      → exp_logit a lse1 ≡ weight_sum a ys
      → pos (add_W (weight_sum a (xs ++ ys)) (exp_logit a sink)) ≡ true
      → (t : S) × (merge_two_subsets_with_sink a out0 lse0 out1 lse1 sink
          ≡ merge_at out0 lse0 out1 lse1 sink t)
  unfolding merge_two_subsets_with_sink exp_logit
  merge_two-eq-merge_at xs ys out0 out1 neg_inf neg_inf neg_inf e0 e1 h =
      let nothing : pos (add_W (weight_sum a (xs ++ ys)) zero_W) ≡ false =
        rw (weight_sum-append laws xs ys, ← e0, ← e1, zero-add_W, zero-add_W, pos-zero) refl in
      cc
  merge_two-eq-merge_at xs ys out0 out1 neg_inf neg_inf (fin k) e0 e1 h = (k, refl)
  merge_two-eq-merge_at xs ys out0 out1 neg_inf (fin n) neg_inf e0 e1 h = (n, refl)
  merge_two-eq-merge_at xs ys out0 out1 neg_inf (fin n) (fin k) e0 e1 h = (max_S n k, refl)
  merge_two-eq-merge_at xs ys out0 out1 (fin m) neg_inf neg_inf e0 e1 h = (m, refl)
  merge_two-eq-merge_at xs ys out0 out1 (fin m) neg_inf (fin k) e0 e1 h = (max_S m k, refl)
  merge_two-eq-merge_at xs ys out0 out1 (fin m) (fin n) neg_inf e0 e1 h = (max_S m n, refl)
  merge_two-eq-merge_at xs ys out0 out1 (fin m) (fin n) (fin k) e0 e1 h =
      (max_S (max_S m n) k, refl)

  -- Two finished subsets and their lse merge into the attention over both with the sink, if there
  -- is a candidate or a finite sink.
  pub merge_two-IsAttention :
      {dim : ℕ} (xs ys : Candidates a) (out0 out1 : Row a) (lse0 lse1 sink : Logit S)
      → IsAttention a dim xs neg_inf out0
      → IsAttention a dim ys neg_inf out1
      → lse0 ≡ log_sum_exp a xs
      → lse1 ≡ log_sum_exp a ys
      → pos (add_W (weight_sum a (xs ++ ys)) (exp_logit a sink)) ≡ true
      → Gives
          (IsAttention a dim (xs ++ ys) sink)
          (merge_two_subsets_with_sink a out0 lse0 out1 lse1 sink)
  merge_two-IsAttention xs ys out0 out1 lse0 lse1 sink p0 p1 l0 l1 h =
      let e0 = ap (exp_logit a) l0 ∙ exp-log_sum_exp laws xs in
      let e1 = ap (exp_logit a) l1 ∙ exp-log_sum_exp laws ys in
      let (t, e) = merge_two-eq-merge_at xs ys out0 out1 lse0 lse1 sink e0 e1 h in
      rw e (merge_at-IsAttention xs ys out0 out1 lse0 lse1 sink t p0 p1 e0 e1 h)
