-- ===== src/SparseMla/Finish/Single.antt =====
-- `_merge_single_subset_with_sink_kernel` is the merge of the subset with an empty one.
use glm_5_2_gb.Common.{ℕ, true, ◌≡◌, refl, sym, ap, ◌∙◌, some, [], ◌++◌, Gives}
use mathlib.Core.Path.{ap₂, fun_ext, subst₂, subst⁻¹}
use mathlib.Core.List.{append-nil}
use glm_5_2_gb.Float.{Arith, IsExact}
use glm_5_2_gb.Softmax.{
  Logit, neg_inf, fin, Row, Candidates, weight_sum, exp_logit, log_sum_exp, attention, value_sum,
}
use glm_5_2_gb.Softmax.Laws.{add-zero_W, add-zero_E}
use glm_5_2_gb.SparseMla.Finish.{merge_two_subsets_with_sink, merge_single_subset_with_sink}
use glm_5_2_gb.SparseMla.Finish.Laws.{IsAttention}
use glm_5_2_gb.SparseMla.Finish.Merge.{merge_two-IsAttention}

module _ {a : Arith} (laws : IsExact a) where
  open a use {S, W, E, add_W, zero_W, act, add_E, zero_E, quot, pos}
  open laws use {act-zero, zero-add_W, pos-zero}

  quot_of_single :
      (w v : W) (o e : E)
      → quot (act w o) (add_W w v)
        ≡ quot (add_E (act w o) (act zero_W e)) (add_W (add_W w zero_W) v)
  quot_of_single w v o e =
      ap₂ quot (sym (add-zero_E laws (act w o)) ∙ ap (add_E (act w o)) (sym (act-zero e)))
        (ap (λ x. add_W x v) (sym (add-zero_W laws w)))

  merge_single-eq-merge_two :
      (out0 out1 : Row a) (lse sink : Logit S)
      → merge_single_subset_with_sink a out0 lse sink
        ≡ merge_two_subsets_with_sink a out0 lse out1 neg_inf sink
  unfolding merge_single_subset_with_sink merge_two_subsets_with_sink
  merge_single-eq-merge_two out0 out1 neg_inf neg_inf = refl
  merge_single-eq-merge_two out0 out1 neg_inf (fin k) =
      ap some (fun_ext (λ d. quot_of_single _ _ _ _))
  merge_single-eq-merge_two out0 out1 (fin m) neg_inf =
      ap some (fun_ext (λ d. quot_of_single _ _ _ _))
  merge_single-eq-merge_two out0 out1 (fin m) (fin k) =
      ap some (fun_ext (λ d. quot_of_single _ _ _ _))

  empty-IsAttention : {dim : ℕ} → IsAttention a dim [] neg_inf (λ d. zero_E)
  unfolding attention weight_sum exp_logit value_sum
  empty-IsAttention d h = rw (zero-add_W zero_W, pos-zero) refl

  empty-log_sum_exp : neg_inf ≡ log_sum_exp a []
  unfolding log_sum_exp weight_sum
  empty-log_sum_exp = rw pos-zero refl

  -- A finished subset and its lse give the attention with the sink, if there is a candidate or a
  -- finite sink.
  pub merge_single-IsAttention :
      {dim : ℕ} (xs : Candidates a) (out : Row a) (lse sink : Logit S)
      → IsAttention a dim xs neg_inf out
      → lse ≡ log_sum_exp a xs
      → pos (add_W (weight_sum a xs) (exp_logit a sink)) ≡ true
      → Gives (IsAttention a dim xs sink) (merge_single_subset_with_sink a out lse sink)
  merge_single-IsAttention {dim} xs out lse sink p l h =
      let all : xs ++ [] ≡ xs = append-nil xs in
      subst₂ (λ ys o. Gives (IsAttention a dim ys sink) o) all
        (sym (merge_single-eq-merge_two out (λ d. zero_E) lse sink))
        (merge_two-IsAttention laws xs [] out (λ d. zero_E) lse neg_inf sink p empty-IsAttention l
          empty-log_sum_exp
          (subst⁻¹ (λ ys. pos (add_W (weight_sum a ys) (exp_logit a sink)) ≡ true) all h))
