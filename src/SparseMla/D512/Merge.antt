-- ===== src/SparseMla/D512/Merge.antt =====
-- The state that merges two holds the candidates of both, in their order.
use glm_5_2_gb.Common.{ℕ, ◌<◌, ◌≡◌, inl, inr, refl, sym, ap, ◌∙◌, ◌++◌, lt→ltb}
use mathlib.Core.Path.{ap₂}
use glm_5_2_gb.Float.{Arith, IsExact}
use glm_5_2_gb.Softmax.{Logit, neg_inf, fin, State, Row, Candidates, exp_logit, max_logit}
use glm_5_2_gb.Softmax.Laws.{Holds, mul_left_comm, weight_sum-append, value_sum-append}
use glm_5_2_gb.SparseMla.Accumulate.{cdiv}
use glm_5_2_gb.SparseMla.Finish.{is_finite, maximum}
use glm_5_2_gb.Sm12x.KvCache.Fused.{tiles-cover}
use glm_5_2_gb.Sm12x.KvCache.Maximum.{
  max_logit-eq, max_logit-append, maximum-cases, maximum-neg, previous, exp-previous, previous_self,
  fin-neg, left_comm,
}
use glm_5_2_gb.SparseMla.D512.Stores.{grid-tile_store}
use glm_5_2_gb.SparseMla.D512.Named.{exp_or-eq}
use glm_5_2_gb.SparseMla.D512.{
  BlockSizes, merge_scale, merged_value, chunked_merge_acc, chunked_merge_state, merge_chunk,
}

module _ {a : Arith} (laws : IsExact a) (nan : a.W) (head_dim num_heads num_kv_rows : ℕ)
    (scale : a.S) (q kv_flat : ℕ → Row a) where
  open a use {S, W, E, exp, zero_W, one_W, add_W, mul_W, zero_E, add_E, act}
  open laws use {
    mul_W_comm, one-mul_W, zero-mul_W, mul-add_W, add_W_comm, add_W_assoc, zero-add_W, act-zero,
    act-mul, act-add_E, zero-add_E,
  }

  abbrev scale_to : Logit S → Logit S → W
  scale_to = merge_scale a nan head_dim num_heads num_kv_rows scale q kv_flat

  -- The guard of exp(-inf - ...) changes nothing.
  scale_to-eq : (x : Logit S) (t : S) → scale_to x (fin t) ≡ previous laws x t
  unfolding merge_scale is_finite
  scale_to-eq neg_inf t = refl
  scale_to-eq (fin m) t = exp_or-eq a nan (fin m) t

  exp-scale_to : (x : Logit S) (t : S) → mul_W (exp t) (scale_to x (fin t)) ≡ exp_logit a x
  exp-scale_to x t = ap (mul_W (exp t)) (scale_to-eq x t) ∙ exp-previous laws x t

  module _ {dim : ℕ} {xs ys : Candidates a} (st0 st1 : State a) (h0 : Holds a dim xs st0)
      (h1 : Holds a dim ys st1) where
    abbrev denom_to : Logit S → W
    denom_to next =
        add_W (mul_W st0.denom (scale_to st0.max_score next))
          (mul_W st1.denom (scale_to st1.max_score next))

    -- A scaled denominator with the same maximum keeps the exponential of 0.
    share_floor :
        (st : State a) (zs : Candidates a) (t : S)
        → Holds a dim zs st
        → st.max_score ≡ fin t
        → (w : W) × (mul_W st.denom (scale_to st.max_score (fin t)) ≡ add_W one_W w)
    share_floor st zs t h e = elim h.floor [
      | inl cold ↦ absurd (fin-neg laws t (sym e ∙ cold))
      | inr (w, e') ↦ (
        w,
        ap₂ mul_W e'
              (scale_to-eq st.max_score t ∙ ap (λ m. previous laws m t) e ∙ previous_self laws t)
            ∙ mul_W_comm (add_W one_W w) one_W
            ∙ one-mul_W (add_W one_W w),
      )
    ]

    merged-floor :
        (t : S)
        → maximum a st0.max_score st1.max_score ≡ fin t
        → (w : W) × (denom_to (fin t) ≡ add_W one_W w)
    merged-floor t e = elim (maximum-cases laws st0.max_score st1.max_score t e) [
      | inl first ↦
          let (w, e') = share_floor st0 xs t h0 first in
          let other = mul_W st1.denom (scale_to st1.max_score (fin t)) in
          (add_W w other, ap (λ x. add_W x other) e' ∙ add_W_assoc one_W w other)
      | inr second ↦
          let (w, e') = share_floor st1 ys t h1 second in
          let other = mul_W st0.denom (scale_to st0.max_score (fin t)) in
          (add_W other w, ap (add_W other) e' ∙ left_comm laws other one_W w)
    ]

    scaled_weight :
        (st : State a) (t : S)
        → mul_W (exp t) (mul_W st.denom (scale_to st.max_score (fin t)))
          ≡ mul_W (exp_logit a st.max_score) st.denom
    scaled_weight st t =
        mul_left_comm laws (exp t) st.denom (scale_to st.max_score (fin t))
        ∙ ap (mul_W st.denom) (exp-scale_to st.max_score t)
        ∙ mul_W_comm st.denom (exp_logit a st.max_score)

    scaled_value :
        (st : State a) (t : S) (e : E)
        → act (exp t) (act (scale_to st.max_score (fin t)) e) ≡ act (exp_logit a st.max_score) e
    scaled_value st t e =
        sym (act-mul (exp t) (scale_to st.max_score (fin t)) e)
        ∙ ap (λ w. act w e) (exp-scale_to st.max_score t)

    merged-peak : maximum a st0.max_score st1.max_score ≡ max_logit a (xs ++ ys) neg_inf
    merged-peak =
        ap₂ (maximum a) h0.peak h1.peak
        ∙ sym (max_logit-append laws xs ys neg_inf ∙ max_logit-eq laws ys (max_logit a xs neg_inf))

    -- Both states, with what they held scaled to the larger maximum.
    pub merged-Holds :
        (next : Logit S) (acc : Row a)
        → maximum a st0.max_score st1.max_score ≡ next
        → ((d : ℕ)
            → d < dim
            → acc d
              ≡ add_E
                  (act (scale_to st0.max_score next) (st0.acc d))
                  (act (scale_to st1.max_score next) (st1.acc d)))
        → Holds a dim (xs ++ ys) (record { max_score = next; denom = denom_to next; acc = acc })
    unfolding exp_logit
    merged-Holds neg_inf acc e values =
        let (cold0, cold1) = maximum-neg laws st0.max_score st1.max_score e in
        let none0 = h0.settled cold0 in
        let none1 = h1.settled cold1 in
        let nothing : (m : Logit S) (w : W) → w ≡ zero_W → mul_W w (scale_to m neg_inf) ≡ zero_W =
          λ (m : Logit S) (w : W) (h : w ≡ zero_W).
            ap (λ v. mul_W v (scale_to m neg_inf)) h ∙ zero-mul_W _ in
        let zero0 : exp_logit a st0.max_score ≡ zero_W = ap (exp_logit a) cold0 in
        let zero1 : exp_logit a st1.max_score ≡ zero_W = ap (exp_logit a) cold1 in
        record {
          represents = record {
            weight =
                zero-mul_W _
                ∙ sym (zero-add_W zero_W)
                ∙ ap₂ add_W
                    (sym (ap (λ w. mul_W w st0.denom) zero0 ∙ zero-mul_W st0.denom)
                      ∙ h0.represents.weight)
                    (sym (ap (λ w. mul_W w st1.denom) zero1 ∙ zero-mul_W st1.denom)
                      ∙ h1.represents.weight)
                ∙ sym (weight_sum-append laws xs ys);
            values = λ d k.
                act-zero _
                ∙ sym (zero-add_E zero_E)
                ∙ ap₂ add_E
                    (sym (ap (λ w. act w (st0.acc d)) zero0 ∙ act-zero (st0.acc d))
                      ∙ h0.represents.values d k)
                    (sym (ap (λ w. act w (st1.acc d)) zero1 ∙ act-zero (st1.acc d))
                      ∙ h1.represents.values d k)
                ∙ sym (value_sum-append laws xs ys d);
          };
          settled = λ _.
              ap₂ add_W (nothing st0.max_score st0.denom none0)
                (nothing st1.max_score st1.denom none1)
              ∙ zero-add_W zero_W;
          peak = sym e ∙ merged-peak;
          floor = inl refl;
        }
    merged-Holds (fin t) acc e values = record {
      represents = record {
        weight =
            mul-add_W (exp t) (mul_W st0.denom (scale_to st0.max_score (fin t)))
              (mul_W st1.denom (scale_to st1.max_score (fin t)))
            ∙ ap₂ add_W (scaled_weight st0 t ∙ h0.represents.weight)
                (scaled_weight st1 t ∙ h1.represents.weight)
            ∙ sym (weight_sum-append laws xs ys);
        values = λ d k.
            ap (act (exp t)) (values d k)
            ∙ act-add_E (exp t) (act (scale_to st0.max_score (fin t)) (st0.acc d))
                (act (scale_to st1.max_score (fin t)) (st1.acc d))
            ∙ ap₂ add_E (scaled_value st0 t (st0.acc d) ∙ h0.represents.values d k)
                (scaled_value st1 t (st1.acc d) ∙ h1.represents.values d k)
            ∙ sym (value_sum-append laws xs ys d);
      };
      settled = λ h. absurd (fin-neg laws t h);
      peak = sym e ∙ merged-peak;
      floor = inr (merged-floor t e);
    }

  merged_value-eq :
      (running chunk : ℕ → State a) (head d : ℕ) (old : E)
      → head < num_heads
      → d < head_dim
      → merged_value a nan head_dim num_heads num_kv_rows scale q kv_flat running chunk head d old
        ≡ (let next = maximum a (running head).max_score (chunk head).max_score in
            add_E
              (act (scale_to (running head).max_score next) old)
              (act (scale_to (chunk head).max_score next) ((chunk head).acc d)))
  unfolding merged_value
  merged_value-eq running chunk head d old real k =
      rw (lt→ltb head num_heads real, lt→ltb d head_dim k, merged_value) refl

  -- The two merging launches, at a real head.
  pub merge_chunk-Holds :
      (b : BlockSizes) {xs ys : Candidates a} (running chunk : ℕ → State a) (head : ℕ)
      → 0 < b.head_block_size
      → 0 < b.value_block_size
      → head < num_heads
      → Holds a head_dim xs (running head)
      → Holds a head_dim ys (chunk head)
      → Holds a head_dim
          (xs ++ ys)
          (merge_chunk a nan head_dim num_heads num_kv_rows scale q kv_flat b running chunk head)
  unfolding merge_chunk chunked_merge_state chunked_merge_acc
  merge_chunk-Holds b running chunk head some_heads some_values real h0 h1 =
      rw (lt→ltb head num_heads real) (
        merged-Holds (running head) (chunk head) h0 h1 _ _ refl (λ d k.
          grid-tile_store b.head_block_size num_heads b.value_block_size head_dim
            (merged_value a nan head_dim num_heads num_kv_rows scale q kv_flat running chunk)
            (cdiv num_heads b.head_block_size) (cdiv head_dim b.value_block_size) _ some_heads
            some_values (tiles-cover num_heads b.head_block_size some_heads)
            (tiles-cover head_dim b.value_block_size some_values) head d
          ∙ rw (lt→ltb head num_heads real, lt→ltb d head_dim k)
              (merged_value-eq running chunk head d _ real k)))
