-- ===== src/Sm12x/KvCache/Tile.antt =====
-- The update by a tile: what the candidates of the tile add, whichever of them are valid.
use glm_5_2_gb.Common.{ℕ, ◌<◌, Bool, true, ◌≡◌, inl, inr, refl, sym, ap, ◌∙◌, ◌++◌, if◌then◌else◌}
use mathlib.Core.Path.{ap₂}
use mathlib.Core.List.{append-nil}
use glm_5_2_gb.Float.{Arith, IsExact}
use glm_5_2_gb.Softmax.{
  Logit, neg_inf, fin, State, Row, Candidates, exp_below, exp_logit, max_logit,
}
use glm_5_2_gb.Softmax.Laws.{Holds, mul_left_comm, weight_sum-append, value_sum-append}
use glm_5_2_gb.SparseMla.Accumulate.Loop.{candidates}
use glm_5_2_gb.SparseMla.Finish.{is_finite, maximum}
use glm_5_2_gb.Sm12x.KvCache.Sums.{
  p, tile_max-eq, tile_sum-eq, tile_max-empty, tile_sum-floor, tile_dot-eq,
}
use glm_5_2_gb.Sm12x.KvCache.Maximum.{
  max_logit-eq, max_logit-append, maximum-cases, maximum-neg, previous, exp-previous, previous_self,
  fin-neg, left_comm,
}
use glm_5_2_gb.Sm12x.KvCache.{tile_max, tile_sum, tile_dot, safe_next, tile_update}

module _ {a : Arith} (laws : IsExact a) where
  open a use {S, W, E, sub_S, exp, zero_W, one_W, add_W, mul_W, zero_E, add_E, act}
  open laws use {
    exp-sub, mul_W_comm, one-mul_W, zero-mul_W, mul-add_W, add_W_comm, add_W_assoc, zero-add_W,
    act-zero, act-zero_E, act-mul, act-add_E, zero-add_E,
  }

  module _ (valid : ℕ → Bool) (score : ℕ → S) (scores : ℕ → Logit S)
      (scored : (j : ℕ) → scores j ≡ (if valid j then fin (score j) else neg_inf))
      (row kv : ℕ → Row a) where
    abbrev cands : ℕ → ℕ → Candidates a
    cands n i = candidates a valid score row n i

    abbrev weights : S → ℕ → W
    weights t j = p laws valid score scores scored row kv t j

    module _ (dim : ℕ) (same : (j d : ℕ) → valid j ≡ true → d < dim → kv j d ≡ row j d) where
      module _ (n i : ℕ) where
        -- The state after the tile, with the maximum `next`.
        unfoldable updated : Logit S → State a → State a
        updated next st =
            let safe = safe_next a next in
            let previous_weight =
              if is_finite a st.max_score then exp_below a st.max_score safe else zero_W in
            record {
              max_score = next;
              denom = add_W (mul_W st.denom previous_weight) (tile_sum a n i (weights safe));
              acc = λ d.
                  add_E (act previous_weight (st.acc d))
                    (tile_dot a n i (weights safe) (λ j. kv j d));
            }

        updated-floor :
            (t : S) (xs : Candidates a) (st : State a)
            → Holds a dim xs st
            → maximum a st.max_score (tile_max a n i scores) ≡ fin t
            → (w : W) × ((updated (fin t) st).denom ≡ add_W one_W w)
        unfolding updated safe_next
        updated-floor t xs st h e =
            let sum = tile_sum a n i (weights t) in
            elim (maximum-cases laws st.max_score (tile_max a n i scores) t e) [
              | inr later ↦
                  let (w, e') = tile_sum-floor laws valid score scores scored row kv t n i later in
                  let old = mul_W st.denom (previous laws st.max_score t) in
                  (add_W old w, ap (add_W old) e' ∙ left_comm laws old one_W w)
              | inl here ↦ elim h.floor [
                | inl cold ↦ absurd (fin-neg laws t (sym here ∙ cold))
                | inr (w, e') ↦ (
                  add_W w sum,
                  ap (λ x. add_W x sum)
                        (ap₂ mul_W e' (ap (λ m. previous laws m t) here ∙ previous_self laws t)
                          ∙ mul_W_comm (add_W one_W w) one_W
                          ∙ one-mul_W (add_W one_W w))
                      ∙ add_W_assoc one_W w sum,
                )
              ]
            ]

        updated-Holds :
            (next : Logit S) (xs : Candidates a) (st : State a)
            → Holds a dim xs st
            → maximum a st.max_score (tile_max a n i scores) ≡ next
            → Holds a dim (xs ++ cands n i) (updated next st)
        unfolding updated safe_next exp_logit
        updated-Holds neg_inf xs st h e =
            let (before, empty) = maximum-neg laws st.max_score (tile_max a n i scores) e in
            let (sum, none) =
              tile_max-empty laws valid score scores scored row kv a.zero_S n i empty in
            let cold : exp_logit a st.max_score ≡ zero_W = ap (exp_logit a) before in
            rw (none, append-nil)
              (record {
                represents = record {
                  weight =
                      zero-mul_W _
                      ∙ sym (zero-mul_W st.denom)
                      ∙ ap (λ w. mul_W w st.denom) (sym cold)
                      ∙ h.represents.weight;
                  values = λ d k.
                      act-zero _
                      ∙ sym (act-zero (st.acc d))
                      ∙ ap (λ w. act w (st.acc d)) (sym cold)
                      ∙ h.represents.values d k;
                };
                settled = λ _.
                    ap₂ add_W
                      (ap (λ w. mul_W w (previous laws st.max_score a.zero_S)) (h.settled before)
                        ∙ zero-mul_W _)
                      sum
                    ∙ zero-add_W zero_W;
                peak = sym before ∙ h.peak;
                floor = inl refl;
              })
        updated-Holds (fin t) xs st h e = record {
          represents = record {
            weight =
                mul-add_W (exp t) (mul_W st.denom (previous laws st.max_score t))
                  (tile_sum a n i (weights t))
                ∙ ap₂ add_W
                    (mul_left_comm laws (exp t) st.denom (previous laws st.max_score t)
                      ∙ ap (mul_W st.denom) (exp-previous laws st.max_score t)
                      ∙ mul_W_comm st.denom (exp_logit a st.max_score)
                      ∙ h.represents.weight)
                    (tile_sum-eq laws valid score scores scored row kv t n i)
                ∙ sym (weight_sum-append laws xs (cands n i));
            values = λ d k.
                let old = act (previous laws st.max_score t) (st.acc d) in
                act-add_E (exp t) old (tile_dot a n i (weights t) (λ j. kv j d))
                ∙ ap₂ add_E
                    (sym (act-mul (exp t) (previous laws st.max_score t) (st.acc d))
                      ∙ ap (λ w. act w (st.acc d)) (exp-previous laws st.max_score t)
                      ∙ h.represents.values d k)
                    (tile_dot-eq laws valid score scores scored row kv dim same t n i d k)
                ∙ sym (value_sum-append laws xs (cands n i) d);
          };
          settled = λ e'. cc;
          peak =
              sym e
              ∙ ap₂ (maximum a) h.peak (tile_max-eq laws valid score scores scored row kv n i)
              ∙ sym (
                  max_logit-append laws xs (cands n i) neg_inf
                  ∙ max_logit-eq laws (cands n i) (max_logit a xs neg_inf));
          floor = inr (updated-floor t xs st h e);
        }

        -- If the scores are -inf exactly at the candidates that are not valid, and the loaded
        -- values are the rows in the state's dimensions where valid: the update by a tile adds the
        -- tile's valid candidates, and no other, to the ones that its state stands for, also if
        -- the tile or the state is empty.
        pub tile_update-Holds :
            (xs : Candidates a) (st : State a)
            → Holds a dim xs st
            → Holds a dim (xs ++ cands n i) (tile_update a n i valid scores kv st)
        unfolding tile_update updated p
        tile_update-Holds xs st h =
            updated-Holds (maximum a st.max_score (tile_max a n i scores)) xs st h refl
