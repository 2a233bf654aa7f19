-- ===== src/SparseMla/Finish.antt =====
-- The kernels of kernels/sparse_mla_kernels.py that turn accumulated states into outputs, for one
-- token and head. A weight of type `Option` is `none` where the float is a NaN or infinite; the
-- `tl.where` that guards such a weight discards it.
pub mod Laws
pub mod Shares
pub mod Merge
pub mod Single
pub mod Entries
use glm_5_2_gb.Common.{ℕ, Bool, true, false, ◌||◌, Option, none, some, ◌>>=◌, if◌then◌else◌}
use glm_5_2_gb.Float.{Arith}
use glm_5_2_gb.Softmax.{Logit, neg_inf, fin, State, Row}

module _ (a : Arith) where
  open a use {
    S, W, E, add_S, sub_S, max_S, exp, log, zero_S, zero_W, one_W, add_W, mul_W, div_W, pos, zero_E,
    add_E, act,
  }

  -- `x > -inf`, and `x != -inf`
  unfoldable pub is_finite : Logit S → Bool
  is_finite neg_inf = false
  is_finite (fin m) = true

  -- `tl.maximum`
  unfoldable pub maximum : Logit S → Logit S → Logit S
  maximum neg_inf y = y
  maximum (fin m) neg_inf = fin m
  maximum (fin m) (fin n) = fin (max_S m n)

  -- `tl.exp(x - y)`: (-inf) - (-inf) is a NaN, and x - (-inf) is +inf.
  unfoldable pub exp_diff : Logit S → Logit S → Option W
  exp_diff x neg_inf = none
  exp_diff neg_inf (fin n) = some zero_W
  exp_diff (fin m) (fin n) = some (exp (sub_S m n))

  -- `tl.exp(x - y)` with a value of which nothing is known in place of a NaN or +inf.
  unfoldable pub exp_or : W → Logit S → Logit S → W
  unfolding exp_diff
  exp_or nan x y = elim (exp_diff x y) [ none ↦ nan | some w ↦ w ]

  -- `x + tl.log(w)` for a positive `w`
  unfoldable pub add_log : Logit S → W → Logit S
  add_log neg_inf w = neg_inf
  add_log (fin m) w = fin (add_S m (log w))

  -- `_finish_attention_state_kernel`: the output and the lse of one subset.
  unfoldable pub finish_attention_state : State a → Row a × Logit S
  finish_attention_state st =
      let is_valid = pos st.denom in
      let inv_denom = if is_valid then div_W one_W st.denom else zero_W in
      let subset_lse = if is_valid then add_log st.max_score st.denom else neg_inf in
      (λ d. act inv_denom (st.acc d), subset_lse)

  -- `_finish_attention_state_with_sink_kernel`
  unfoldable pub finish_attention_state_with_sink : State a → Logit S → Option (Row a)
  unfolding is_finite maximum exp_diff
  finish_attention_state_with_sink st sink = do
    let has_tokens = pos st.denom
    let has_sink = is_finite sink
    let valid_max = if has_tokens then st.max_score else neg_inf
    let valid_sink = if has_sink then sink else neg_inf
    let merge_max = maximum valid_max valid_sink
    let has_any = has_tokens || has_sink
    let safe_merge_max = if has_any then merge_max else fin zero_S
    let safe_running_max = if has_tokens then st.max_score else safe_merge_max
    let safe_sink = if has_sink then sink else safe_merge_max
    subset_scale ← if has_tokens then exp_diff safe_running_max safe_merge_max else some zero_W
    let subset_weight = mul_W st.denom subset_scale
    sink_weight ← if has_sink then exp_diff safe_sink safe_merge_max else some zero_W
    let total_weight = add_W subset_weight sink_weight
    let inv_total = if pos total_weight then div_W one_W total_weight else zero_W
    some (λ d. act inv_total (act subset_scale (if has_tokens then st.acc d else zero_E)))

  -- `_finish_two_attention_states_with_sink_kernel`
  unfoldable pub finish_two_attention_states_with_sink :
      State a → State a → Logit S → Option (Row a)
  unfolding is_finite maximum exp_diff
  finish_two_attention_states_with_sink st0 st1 sink = do
    let has0 = pos st0.denom
    let has1 = pos st1.denom
    let has_sink = is_finite sink
    let valid_max0 = if has0 then st0.max_score else neg_inf
    let valid_max1 = if has1 then st1.max_score else neg_inf
    let valid_sink = if has_sink then sink else neg_inf
    let merge_max = maximum (maximum valid_max0 valid_max1) valid_sink
    let has_any = has0 || has1 || has_sink
    let safe_merge_max = if has_any then merge_max else fin zero_S
    let safe_max0 = if has0 then st0.max_score else safe_merge_max
    let safe_max1 = if has1 then st1.max_score else safe_merge_max
    let safe_sink = if has_sink then sink else safe_merge_max
    scale0 ← if has0 then exp_diff safe_max0 safe_merge_max else some zero_W
    scale1 ← if has1 then exp_diff safe_max1 safe_merge_max else some zero_W
    sink_weight ← if has_sink then exp_diff safe_sink safe_merge_max else some zero_W
    let total_weight = add_W (add_W (mul_W st0.denom scale0) (mul_W st1.denom scale1)) sink_weight
    let inv_total = if pos total_weight then div_W one_W total_weight else zero_W
    some (λ d. act inv_total (
        add_E (act scale0 (if has0 then st0.acc d else zero_E))
          (act scale1 (if has1 then st1.acc d else zero_E))))

  -- `_merge_two_subsets_with_sink_kernel`: no guard, so three -inf give a NaN.
  unfoldable pub merge_two_subsets_with_sink :
      Row a → Logit S → Row a → Logit S → Logit S → Option (Row a)
  unfolding maximum exp_diff
  merge_two_subsets_with_sink out0 lse0 out1 lse1 sink = do
    let merge_max = maximum (maximum lse0 lse1) sink
    weight0 ← exp_diff lse0 merge_max
    weight1 ← exp_diff lse1 merge_max
    weight_sink ← exp_diff sink merge_max
    let denom = add_W (add_W weight0 weight1) weight_sink
    some (λ d. a.quot (add_E (act weight0 (out0 d)) (act weight1 (out1 d))) denom)

  -- `_merge_single_subset_with_sink_kernel`
  unfoldable pub merge_single_subset_with_sink : Row a → Logit S → Logit S → Option (Row a)
  unfolding maximum exp_diff
  merge_single_subset_with_sink subset_output subset_lse sink = do
    let merge_max = maximum subset_lse sink
    subset_weight ← exp_diff subset_lse merge_max
    sink_weight ← exp_diff sink merge_max
    let denom = add_W subset_weight sink_weight
    some (λ d. a.quot (act subset_weight (subset_output d)) denom)
