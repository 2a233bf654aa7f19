-- ===== src/SparseMla/Scores/Online.antt =====
-- The kernels that take the candidates one by one, from the sink as the first maximum.
use glm_5_2_gb.Common.{
  ℕ, zero, suc, ◌<◌, Bool, true, ◌≡◌, inl, inr, arith, refl, sym, ap, ◌∙◌, [], ◌∷◌, for_range,
  Bool-cases,
}
use mathlib.Core.Path.{ap₂}
use glm_5_2_gb.Float.{Arith, IsExact}
use glm_5_2_gb.Softmax.{
  Logit, neg_inf, fin, State, Row, Candidates, step, absorb, weight_sum, value_sum, exp_logit,
  attention, max_logit, next_max,
}
use glm_5_2_gb.Softmax.Laws.{Represents, absorb-Represents, max-absorb}
use glm_5_2_gb.SparseMla.Accumulate.{mask_row}
use glm_5_2_gb.SparseMla.Accumulate.Loop.{candidates, mask_row-inside}
use glm_5_2_gb.SparseMla.Finish.Laws.{attention_of_scaled}
use glm_5_2_gb.SparseMla.Scores.{sink_state, online_body, online_output}

module _ {a : Arith} (laws : IsExact a) where
  open a use {S, W, E, exp, pos, one_W, zero_W, add_W, mul_W, div_W, zero_E, add_E, act, quot}
  open laws use {
    pos-add, pos-exp, pos-zero, pos-one, pos-mul, mul_W_comm, one-mul_W, zero-mul_W, add_W_comm,
    zero-add_W, zero-add_E, act-zero, act-zero_E, quot-eq-act,
  }

  -- A quotient relative to a maximum is the attention, if there is any weight.
  pub quot_of_scaled :
      (xs : Candidates a) (sink : Logit S) (t : S) (total : W) (num : E) (d : ℕ)
      → mul_W (exp t) total ≡ add_W (weight_sum a xs) (exp_logit a sink)
      → act (exp t) num ≡ value_sum a xs d
      → pos (add_W (weight_sum a xs) (exp_logit a sink)) ≡ true
      → quot num total ≡ attention a xs sink d
  quot_of_scaled xs sink t total num d weight value some_weight =
      let both : pos (mul_W (exp t) total) ≡ true = rw weight some_weight in
      let positive : pos total ≡ true = rw (pos-mul (exp t) total, pos-exp t) at both in
      quot-eq-act num total positive
      ∙ rw positive at (attention_of_scaled laws xs sink t total num d weight value)

  module _ (sink : Logit S) where
    abbrev start : State a
    start = record { max_score = sink; denom = one_W; acc = λ d. zero_E }

    start-Represents : {dim : ℕ} → Represents a dim start (exp_logit a sink) (λ d. zero_E)
    start-Represents = record {
      weight = mul_W_comm (exp_logit a sink) one_W ∙ one-mul_W (exp_logit a sink);
      values = λ d h. act-zero_E (exp_logit a sink);
    }

    pub max_logit-is_fin : (xs : Candidates a) (m : S) → (t : S) × (max_logit a xs (fin m) ≡ fin t)
    unfolding max_logit
    max_logit-is_fin [] m = (m, refl)
    max_logit-is_fin ((s, kv) ∷ xs) m = max_logit-is_fin xs (next_max a (fin m) s)

    max_logit-cons :
        (s : S) (kv : Row a) (xs : Candidates a) (t : S)
        → max_logit a xs (fin (next_max a sink s)) ≡ fin t
        → max_logit a ((s, kv) ∷ xs) sink ≡ fin t
    unfolding max_logit
    max_logit-cons s kv xs t e = e

    -- With a finite maximum and some weight.
    output_at :
        (xs : Candidates a) (t : S) (d : ℕ)
        → (absorb a xs start).max_score ≡ fin t
        → pos (add_W (weight_sum a xs) (exp_logit a sink)) ≡ true
        → quot ((absorb a xs start).acc d) (absorb a xs start).denom ≡ attention a xs sink d
    unfolding exp_logit
    output_at xs t d top some_weight =
        let r : Represents a (suc d) (absorb a xs start) _ _ =
          absorb-Represents laws xs start _ _ start-Represents in
        quot_of_scaled xs sink t (absorb a xs start).denom ((absorb a xs start).acc d) d
          (ap (λ m. mul_W (exp_logit a m) (absorb a xs start).denom) (sym top)
            ∙ r.weight
            ∙ add_W_comm (exp_logit a sink) (weight_sum a xs))
          (ap (λ m. act (exp_logit a m) ((absorb a xs start).acc d)) (sym top)
            ∙ r.values d (omega arith)
            ∙ zero-add_E (value_sum a xs d))
          some_weight

  output-eq :
      (xs : Candidates a) (sink : Logit S) (d : ℕ)
      → quot ((absorb a xs (start sink)).acc d) (absorb a xs (start sink)).denom
        ≡ attention a xs sink d
  unfolding absorb weight_sum value_sum exp_logit attention
  output-eq [] neg_inf d =
      quot-eq-act zero_E one_W pos-one ∙ act-zero_E _ ∙ rw (zero-add_W zero_W, pos-zero) refl
  output-eq [] (fin k) d =
      let some_weight : pos (add_W zero_W (exp k)) ≡ true =
        ap pos (zero-add_W (exp k)) ∙ pos-exp k in
      output_at (fin k) [] k d refl some_weight
  output-eq ((s, kv) ∷ xs) sink d =
      let (t, e) = max_logit-is_fin sink xs (next_max a sink s) in
      let some_weight : pos (add_W (weight_sum a ((s, kv) ∷ xs)) (exp_logit a sink)) ≡ true =
        rw
          (
            pos-add (add_W (exp s) (weight_sum a xs)) (exp_logit a sink),
            pos-add (exp s) (weight_sum a xs),
            pos-exp s,
          )
          refl in
      output_at sink ((s, kv) ∷ xs) t d
        (max-absorb a ((s, kv) ∷ xs) (start sink) ∙ max_logit-cons sink s kv xs t e) some_weight

  module _ (head_dim : ℕ) (scores : ℕ → ℕ → S) (kv : ℕ → Row a) (valid_tokens : ℕ → Bool)
      (attn_sink : ℕ → Logit S) (num_candidates : ℕ) (nan : W) where
    abbrev masked : ℕ → Row a
    masked j = mask_row a head_dim (kv j)

    -- The loop takes the valid candidates, in order.
    loop-eq :
        (head n i : ℕ) (st : State a)
        → for_range n i
            (online_body a nan head_dim num_candidates scores kv valid_tokens attn_sink head)
            st
          ≡ absorb a (candidates a valid_tokens (scores head) masked n i) st
    unfolding for_range candidates absorb online_body
    loop-eq head zero i st = refl
    loop-eq head (suc n) i st = elim (Bool-cases (valid_tokens i)) [
      | inl e ↦ rw e (loop-eq head n (suc i) (step a st (scores head i) (masked i)))
      | inr e ↦ rw e (loop-eq head n (suc i) st)
    ]

    -- The mask of the dimensions changes nothing inside.
    attention-masked :
        (head n i : ℕ) (d : ℕ)
        → d < head_dim
        → (weight_sum a (candidates a valid_tokens (scores head) masked n i)
            ≡ weight_sum a (candidates a valid_tokens (scores head) kv n i))
          × (value_sum a (candidates a valid_tokens (scores head) masked n i) d
              ≡ value_sum a (candidates a valid_tokens (scores head) kv n i) d)
    unfolding candidates weight_sum value_sum
    attention-masked head zero i d h = (refl, refl)
    attention-masked head (suc n) i d h =
        let (weights, values) = attention-masked head n (suc i) d h in
        elim (Bool-cases (valid_tokens i)) [
          | inl e ↦ rw e (
            ap (add_W (exp (scores head i))) weights,
            ap₂ add_E (ap (act (exp (scores head i))) (mask_row-inside laws (kv i) h)) values,
          )
          | inr e ↦ rw e (weights, values)
        ]

    -- One by one: the attention over the valid candidates, also for none, whatever the sink.
    pub online_output-eq :
        (head d : ℕ) (old : E)
        → d < head_dim
        → online_output a nan head_dim num_candidates scores kv valid_tokens attn_sink head d old
          ≡ attention a
              (candidates a valid_tokens (scores head) kv num_candidates 0)
              (attn_sink head)
              d
    unfolding online_output sink_state attention
    online_output-eq head d old h =
        let (weights, values) = attention-masked head num_candidates 0 d h in
        let xs = candidates a valid_tokens (scores head) masked num_candidates 0 in
        ap (λ (st : State a). quot (st.acc d) st.denom)
          (loop-eq head num_candidates 0 (start (attn_sink head)))
        ∙ output-eq xs (attn_sink head) d
        ∙ rw (weights, values) refl
