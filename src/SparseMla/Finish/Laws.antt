-- ===== src/SparseMla/Finish/Laws.antt =====
-- The finishing kernels give the reference attention of the candidates that their states hold.
use glm_5_2_gb.Common.{
  ℕ, ◌<◌, true, false, ◌≡◌, ◌⊎◌, Gives-bind, refl, sym, ap, ◌∙◌, some, Gives, if◌then◌else◌,
  Bool-cases, inl, inr, Option, ◌>>=◌,
}
use glm_5_2_gb.Float.{Arith, IsExact}
use glm_5_2_gb.Softmax.{
  Logit, neg_inf, fin, State, Row, Candidates, weight_sum, value_sum, exp_logit, attention,
  log_sum_exp,
}
use glm_5_2_gb.Softmax.Laws.{
  IsSettled, Holds, div-cancel, value_sum_of_weightless, mul-zero_W, add-zero_W,
}
use glm_5_2_gb.SparseMla.Finish.{
  finish_attention_state, finish_attention_state_with_sink, exp_diff, is_finite, add_log,
}

-- The first `dim` dimensions of a row are the attention over `xs` with the sink.
abbrev pub IsAttention : (a : Arith) → ℕ → Candidates a → Logit a.S → Row a → Type 0
IsAttention a dim xs sink out = (d : ℕ) → d < dim → out d ≡ attention a xs sink d

module _ (a : Arith) where
  open a use {S, W, E, exp, zero_W, one_W, add_W, mul_W, div_W, pos, zero_E, act}

  -- What a state contributes relative to a finite maximum `t`, on both sides of `denom > 0`.
  unfoldable pub scale_of : State a → S → Option W
  scale_of st t = if pos st.denom then exp_diff a st.max_score (fin t) else some zero_W

  pub record IsShare (dim : ℕ) (xs : Candidates a) (st : State a) (t : S) (x : W) : Type 0 where
    pub weight : mul_W (exp t) (mul_W st.denom x) ≡ weight_sum a xs
    pub values :
        (d : ℕ)
        → d < dim
        → act (exp t) (act x (if pos st.denom then st.acc d else zero_E)) ≡ value_sum a xs d

  unfoldable pub sink_scale : Logit S → S → Option W
  sink_scale sink t = if is_finite a sink then exp_diff a sink (fin t) else some zero_W

  -- The finishing kernel on a state and a sink, once the maximum is known to be the number `t`.
  pub finish_at : State a → Logit S → S → Option (Row a)
  finish_at st sink t = do
    subset_scale ← scale_of st t
    sink_weight ← sink_scale sink t
    let total_weight = add_W (mul_W st.denom subset_scale) sink_weight
    let inv_total = if pos total_weight then div_W one_W total_weight else zero_W
    some (λ d. act inv_total (act subset_scale (if pos st.denom then st.acc d else zero_E)))

module _ {a : Arith} (laws : IsExact a) where
  open a use {
    S, W, E, sub_S, exp, log, zero_S, zero_W, one_W, add_W, mul_W, div_W, pos, zero_E, add_E, act,
  }
  open laws use {
    exp-sub, exp-add-log, exp-log, pos-exp, pos-zero, zero_of_not_pos, pos-add, pos-mul, add_W_comm,
    add_W_assoc, zero-add_W, mul_W_comm, mul_W_assoc, one-mul_W, zero-mul_W, mul-add_W,
    mul-div_self, add_E_comm, add_E_assoc, zero-add_E, act-one, act-zero, act-zero_E, act-mul,
    act-add, act-add_E,
  }

  -- A total and a sum that are both relative to a maximum `t` give the attention.
  pub attention_of_scaled :
      (xs : Candidates a) (sink : Logit S) (t : S) (total : W) (num : E) (d : ℕ)
      → mul_W (exp t) total ≡ add_W (weight_sum a xs) (exp_logit a sink)
      → act (exp t) num ≡ value_sum a xs d
      → act (if pos total then div_W one_W total else zero_W) num ≡ attention a xs sink d
  unfolding attention
  attention_of_scaled xs sink t total num d et en = elim (Bool-cases (pos total)) [
    | inl h ↦
        let h' : pos (add_W (weight_sum a xs) (exp_logit a sink)) ≡ true =
          rw (← et) (rw (pos-mul (exp t) total, pos-exp t, h) refl) in
        rw (h, h')
          (ap (λ x. act x num) (sym (div-cancel laws (exp t) total (pos-exp t) h))
            ∙ act-mul _ (exp t) num
            ∙ rw (et, en) refl)
    | inr h ↦
        let h' : pos (add_W (weight_sum a xs) (exp_logit a sink)) ≡ false =
          rw (← et) (rw (pos-mul (exp t) total, pos-exp t, h) refl) in
        rw (h, h') (act-zero num)
  ]

  tokens-IsShare :
      {dim : ℕ} {xs : Candidates a} (m : Logit S) (w : W) (acc : ℕ → E) (t : S)
      → let st : State a = record { max_score = m; denom = w; acc = acc } in
        Holds a dim xs st → pos w ≡ true → Gives (IsShare a dim xs st t) (exp_diff a m (fin t))
  unfolding exp_diff exp_logit
  tokens-IsShare neg_inf w acc t h e =
      let zero : w ≡ zero_W = h.settled refl in
      let e' : pos zero_W ≡ true = rw (← zero) e in cc pos-zero
  tokens-IsShare (fin m) w acc t h e = record {
    weight =
        ap (mul_W (exp t)) (mul_W_comm w (exp (sub_S m t)))
        ∙ sym (mul_W_assoc (exp t) (exp (sub_S m t)) w)
        ∙ rw (exp-sub m t) h.represents.weight;
    values = λ d k. rw (e, ← act-mul, exp-sub m t) (h.represents.values d k);
  }

  weightless :
      {dim : ℕ} {xs : Candidates a} {st : State a}
      → Holds a dim xs st
      → pos st.denom ≡ false
      → weight_sum a xs ≡ zero_W
  weightless {st} h e =
      sym h.represents.weight ∙ ap (mul_W _) (zero_of_not_pos st.denom e) ∙ mul-zero_W laws _

  pub scale_of-IsShare :
      {dim : ℕ} {xs : Candidates a} (st : State a) (t : S)
      → Holds a dim xs st
      → Gives (IsShare a dim xs st t) (scale_of a st t)
  unfolding scale_of
  scale_of-IsShare {xs} st t h = elim (Bool-cases (pos st.denom)) [
    | inl e ↦ rw e (tokens-IsShare st.max_score st.denom st.acc t h e)
    | inr e ↦
        let none_left : weight_sum a xs ≡ zero_W = weightless h e in
        rw e (record {
          weight =
              ap (mul_W (exp t)) (mul-zero_W laws st.denom)
              ∙ mul-zero_W laws (exp t)
              ∙ sym none_left;
          values = λ d k. rw e (
              ap (act (exp t)) (act-zero zero_E)
              ∙ act-zero_E (exp t)
              ∙ sym (value_sum_of_weightless laws xs d (ap pos none_left ∙ pos-zero)));
        })
  ]

  pub sink_scale_lem :
      (sink : Logit S) (t : S)
      → Gives (λ y. mul_W (exp t) y ≡ exp_logit a sink) (sink_scale a sink t)
  unfolding sink_scale exp_diff exp_logit is_finite
  sink_scale_lem neg_inf t = mul-zero_W laws (exp t)
  sink_scale_lem (fin k) t = exp-sub k t

  finish_at-IsAttention :
      {dim : ℕ} {xs : Candidates a} (st : State a) (sink : Logit S) (t : S)
      → Holds a dim xs st
      → Gives (IsAttention a dim xs sink) (finish_at a st sink t)
  unfolding finish_at
  finish_at-IsAttention {xs} st sink t h =
      Gives-bind _ (scale_of a st t) _ (scale_of-IsShare st t h) λ x share.
        Gives-bind _ (sink_scale a sink t) _ (sink_scale_lem sink t) λ y e d k.
          attention_of_scaled xs sink t (add_W (mul_W st.denom x) y) _ d
            (mul-add_W (exp t) (mul_W st.denom x) y ∙ rw (share.weight, e) refl) (share.values d k)

  finish-eq-finish_at :
      (m sink : Logit S) (w : W) (acc : ℕ → E)
      → let st : State a = record { max_score = m; denom = w; acc = acc } in
        IsSettled a st
        → (pos w ≡ true) ⊎ (pos w ≡ false)
        → (t : S) × (finish_attention_state_with_sink a st sink ≡ finish_at a st sink t)
  unfolding finish_at finish_attention_state_with_sink scale_of sink_scale
  finish-eq-finish_at neg_inf sink w acc h (inl e) =
      let e' : pos zero_W ≡ true = rw (← h refl) e in cc pos-zero
  finish-eq-finish_at neg_inf neg_inf w acc h (inr e) = (zero_S, rw e)
  finish-eq-finish_at neg_inf (fin k) w acc h (inr e) = (k, rw e)
  finish-eq-finish_at (fin m) neg_inf w acc h (inl e) = (m, rw e)
  finish-eq-finish_at (fin m) neg_inf w acc h (inr e) = (zero_S, rw e)
  finish-eq-finish_at (fin m) (fin k) w acc h (inl e) = (a.max_S m k, rw e)
  finish-eq-finish_at (fin m) (fin k) w acc h (inr e) = (k, rw e)

  -- From a state that stands for a list of candidates, the finishing kernel with a sink gives no
  -- NaN, and the attention over those candidates with that sink, also for no candidates and for a
  -- sink of -inf.
  pub finish_with_sink-IsAttention :
      {dim : ℕ} {xs : Candidates a} (st : State a) (sink : Logit S)
      → Holds a dim xs st
      → Gives (IsAttention a dim xs sink) (finish_attention_state_with_sink a st sink)
  finish_with_sink-IsAttention st sink h =
      let (t, e) =
        finish-eq-finish_at st.max_score sink st.denom st.acc h.settled
          (Bool-cases (pos st.denom)) in
      rw e (finish_at-IsAttention st sink t h)

  attention_of_weightless :
      (xs : Candidates a) (d : ℕ) → weight_sum a xs ≡ zero_W → attention a xs neg_inf d ≡ zero_E
  unfolding attention exp_logit
  attention_of_weightless xs d e = rw (e, zero-add_W zero_W, pos-zero)

  finish_state_output :
      {dim : ℕ} {xs : Candidates a} (m : Logit S) (w : W) (acc : ℕ → E)
      → let st : State a = record { max_score = m; denom = w; acc = acc } in
        Holds a dim xs st → IsAttention a dim xs neg_inf (finish_attention_state a st).0
  unfolding finish_attention_state exp_logit
  finish_state_output {xs} neg_inf w acc h d k =
      rw (h.settled refl, pos-zero)
        (act-zero (acc d)
          ∙ sym (attention_of_weightless xs d (sym h.represents.weight ∙ zero-mul_W w)))
  finish_state_output {xs} (fin m) w acc h d k =
      attention_of_scaled xs neg_inf m w (acc d) d
        (h.represents.weight ∙ sym (add-zero_W laws (weight_sum a xs))) (h.represents.values d k)

  finish_state_lse :
      {dim : ℕ} {xs : Candidates a} (m : Logit S) (w : W) (acc : ℕ → E)
      → let st : State a = record { max_score = m; denom = w; acc = acc } in
        Holds a dim xs st
        → (pos w ≡ true) ⊎ (pos w ≡ false)
        → (finish_attention_state a st).1 ≡ log_sum_exp a xs
  unfolding finish_attention_state log_sum_exp add_log exp_logit
  finish_state_lse {xs} neg_inf w acc h e =
      rw (h.settled refl, pos-zero, ← h.represents.weight, zero-mul_W w, pos-zero)
  finish_state_lse {xs} (fin m) w acc h (inl e) =
      rw (e, ← h.represents.weight, pos-mul (exp m) w, pos-exp m, e) (ap fin (exp-add-log m w e))
  finish_state_lse {xs} (fin m) w acc h (inr e) =
      rw (e, ← h.represents.weight, pos-mul (exp m) w, pos-exp m, e) refl

  -- From a state that stands for candidates, the kernel without a sink gives the attention over
  -- them and their logsumexp.
  pub finish_state_lem :
      {dim : ℕ} {xs : Candidates a} (st : State a)
      → Holds a dim xs st
      → let (out, lse) = finish_attention_state a st in
        IsAttention a dim xs neg_inf out × (lse ≡ log_sum_exp a xs)
  finish_state_lem st h = (
    finish_state_output st.max_score st.denom st.acc h,
    finish_state_lse st.max_score st.denom st.acc h (Bool-cases (pos st.denom)),
  )
