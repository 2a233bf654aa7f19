-- ===== src/Softmax/Laws.antt =====
-- The online form against the reference.
use glm_5_2_gb.Common.{◌⊎◌, ℕ, ◌<◌, true, false, [], ◌∷◌, ◌++◌, ◌≡◌, refl, sym, ap, ◌∙◌, inl, inr}
use glm_5_2_gb.Float.{Arith, IsExact}
use glm_5_2_gb.Softmax.{
  Logit, neg_inf, fin, State, Candidates, next_max, exp_below, step, absorb, weight_sum, value_sum,
  exp_logit, max_logit, blank,
}

-- The state holds the weight `w` and the values `v` of the first `dim` dimensions, relative to its
-- maximum.
pub record Represents (a : Arith) (dim : ℕ) (st : State a) (w : a.W) (v : ℕ → a.E) : Type 0 where
  pub weight : a.mul_W (exp_logit a st.max_score) st.denom ≡ w
  pub values : (d : ℕ) → d < dim → a.act (exp_logit a st.max_score) (st.acc d) ≡ v d

-- A maximum of -inf means that no weight was seen.
abbrev pub IsSettled : (a : Arith) → State a → Type 0
IsSettled a st = st.max_score ≡ neg_inf → st.denom ≡ a.zero_W

-- The state holds the candidates `xs`: the maximum is theirs, and the denominator is at least the
-- exponential of 0 that the largest candidate contributes.
pub record Holds (a : Arith) (dim : ℕ) (xs : Candidates a) (st : State a) : Type 0 where
  pub represents : Represents a dim st (weight_sum a xs) (value_sum a xs)
  pub settled : IsSettled a st
  pub peak : st.max_score ≡ max_logit a xs neg_inf
  pub floor : (st.max_score ≡ neg_inf) ⊎ ((w : a.W) × (st.denom ≡ a.add_W a.one_W w))

module _ (a : Arith) where
  pub absorb-append :
      (xs ys : Candidates a) (st : State a) → absorb a (xs ++ ys) st ≡ absorb a ys (absorb a xs st)
  unfolding absorb
  absorb-append [] ys st = refl
  absorb-append ((s, kv) ∷ xs) ys st = absorb-append xs ys (step a st s kv)

  pub max-absorb :
      (xs : Candidates a) (st : State a) → (absorb a xs st).max_score ≡ max_logit a xs st.max_score
  unfolding absorb max_logit step
  max-absorb [] st = refl
  max-absorb ((s, kv) ∷ xs) st = max-absorb xs (step a st s kv)

module _ {a : Arith} (laws : IsExact a) where
  open a use {S, W, E, sub_S, exp, log, zero_W, one_W, add_W, mul_W, div_W, pos, zero_E, add_E, act}
  open laws use {
    exp-sub, exp-add-log, exp-log, pos-exp, pos-zero, zero_of_not_pos, pos-add, pos-mul, add_W_comm,
    add_W_assoc, zero-add_W, mul_W_comm, mul_W_assoc, one-mul_W, zero-mul_W, mul-add_W,
    mul-div_self, add_E_comm, add_E_assoc, zero-add_E, act-one, act-zero, act-zero_E, act-mul,
    act-add, act-add_E,
  }

  pub exp-exp_below : (m : Logit S) (t : S) → mul_W (exp t) (exp_below a m t) ≡ exp_logit a m
  unfolding exp_below exp_logit
  exp-exp_below neg_inf t = mul_W_comm (exp t) zero_W ∙ zero-mul_W (exp t)
  exp-exp_below (fin m) t = exp-sub m t

  pub mul_left_comm : (u v w : W) → mul_W u (mul_W v w) ≡ mul_W v (mul_W u w)
  mul_left_comm u v w =
      sym (mul_W_assoc u v w) ∙ ap (λ x. mul_W x w) (mul_W_comm u v) ∙ mul_W_assoc v u w

  pub mul-zero_W : (w : W) → mul_W w zero_W ≡ zero_W
  mul-zero_W w = mul_W_comm w zero_W ∙ zero-mul_W w

  pub add-zero_W : (w : W) → add_W w zero_W ≡ w
  add-zero_W w = add_W_comm w zero_W ∙ zero-add_W w

  pub add-zero_E : (e : E) → add_E e zero_E ≡ e
  add-zero_E e = add_E_comm e zero_E ∙ zero-add_E e

  -- Rescaling the old part of a sum to the new maximum, and weighing the new candidate.
  rescale_W :
      (m : Logit S) (s t : S) (w : W)
      → mul_W (exp t) (add_W (mul_W w (exp_below a m t)) (exp (sub_S s t)))
        ≡ add_W (mul_W (exp_logit a m) w) (exp s)
  rescale_W m s t w = rw (
    mul-add_W (exp t) (mul_W w (exp_below a m t)) (exp (sub_S s t)),
    mul_left_comm (exp t) w (exp_below a m t),
    exp-exp_below m t,
    exp-sub s t,
    mul_W_comm w (exp_logit a m),
  )

  rescale_E :
      (m : Logit S) (s t : S) (d e : E)
      → act (exp t) (add_E (act (exp_below a m t) d) (act (exp (sub_S s t)) e))
        ≡ add_E (act (exp_logit a m) d) (act (exp s) e)
  rescale_E m s t d e = rw (
    act-add_E (exp t) (act (exp_below a m t) d) (act (exp (sub_S s t)) e),
    ← act-mul (exp t) (exp_below a m t) d,
    ← act-mul (exp t) (exp (sub_S s t)) e,
    exp-exp_below m t,
    exp-sub s t,
  )

  pub step-Represents :
      {dim : ℕ} {st : State a} {w : W} {v : ℕ → E} (s : S) (kv : ℕ → E)
      → Represents a dim st w v
      → Represents a dim (step a st s kv) (add_W w (exp s)) (λ d. add_E (v d) (act (exp s) (kv d)))
  unfolding step exp_logit
  step-Represents {st} s kv r = record {
    weight =
        rescale_W st.max_score s (next_max a st.max_score s) st.denom
        ∙ ap (λ x. add_W x (exp s)) r.weight;
    values = λ d h.
        rescale_E st.max_score s (next_max a st.max_score s) (st.acc d) (kv d)
        ∙ ap (λ x. add_E x (act (exp s) (kv d))) (r.values d h);
  }

  pub absorb-Represents :
      {dim : ℕ} (xs : Candidates a) (st : State a) (w : W) (v : ℕ → E)
      → Represents a dim st w v
      → Represents a dim
          (absorb a xs st)
          (add_W w (weight_sum a xs))
          (λ d. add_E (v d) (value_sum a xs d))
  unfolding absorb weight_sum value_sum
  absorb-Represents [] st w v r = record {
    weight = r.weight ∙ sym (add-zero_W w);
    values = λ d h. r.values d h ∙ sym (add-zero_E (v d));
  }
  absorb-Represents ((s, kv) ∷ xs) st w v r =
      let rest = absorb-Represents xs (step a st s kv) _ _ (step-Represents s kv r) in
      record {
        weight = rest.weight ∙ add_W_assoc w (exp s) (weight_sum a xs);
        values = λ d h. rest.values d h ∙ add_E_assoc (v d) (act (exp s) (kv d)) (value_sum a xs d);
      }

  pub blank-Represents : {dim : ℕ} → Represents a dim (blank a) zero_W (λ d. zero_E)
  unfolding blank exp_logit
  blank-Represents = record { weight = zero-mul_W zero_W; values = λ d h. act-zero zero_E }

  -- From the blank state: the sums of the reference.
  pub absorb-blank :
      {dim : ℕ} (xs : Candidates a)
      → Represents a dim (absorb a xs (blank a)) (weight_sum a xs) (value_sum a xs)
  absorb-blank xs =
      let r = absorb-Represents xs (blank a) zero_W (λ d. zero_E) blank-Represents in
      record {
        weight = r.weight ∙ zero-add_W (weight_sum a xs);
        values = λ d h. r.values d h ∙ zero-add_E (value_sum a xs d);
      }

  pub weight_sum-append :
      (xs ys : Candidates a) → weight_sum a (xs ++ ys) ≡ add_W (weight_sum a xs) (weight_sum a ys)
  unfolding weight_sum
  weight_sum-append [] ys = sym (zero-add_W (weight_sum a ys))
  weight_sum-append ((s, kv) ∷ xs) ys =
      ap (add_W (exp s)) (weight_sum-append xs ys)
      ∙ sym (add_W_assoc (exp s) (weight_sum a xs) (weight_sum a ys))

  pub value_sum-append :
      (xs ys : Candidates a) (d : ℕ)
      → value_sum a (xs ++ ys) d ≡ add_E (value_sum a xs d) (value_sum a ys d)
  unfolding value_sum
  value_sum-append [] ys d = sym (zero-add_E (value_sum a ys d))
  value_sum-append ((s, kv) ∷ xs) ys d =
      ap (add_E (act (exp s) (kv d))) (value_sum-append xs ys d)
      ∙ sym (add_E_assoc (act (exp s) (kv d)) (value_sum a xs d) (value_sum a ys d))

  -- A candidate has weight, so only no candidates have none.
  pub value_sum_of_weightless :
      (xs : Candidates a) (d : ℕ) → pos (weight_sum a xs) ≡ false → value_sum a xs d ≡ zero_E
  unfolding weight_sum value_sum
  value_sum_of_weightless [] d h = refl
  value_sum_of_weightless ((s, kv) ∷ xs) d h =
      let some_weight : pos (add_W (exp s) (weight_sum a xs)) ≡ true =
        rw (pos-add (exp s) (weight_sum a xs), pos-exp s) refl in
      cc

  -- Dividing by a weight undoes its scale: 1 / (c w) scaled by c is 1 / w.
  pub div-cancel :
      (c w : W) → pos c ≡ true → pos w ≡ true → mul_W (div_W one_W (mul_W c w)) c ≡ div_W one_W w
  div-cancel c w hc hw =
      let both : pos (mul_W c w) ≡ true = rw (pos-mul c w, hc, hw) refl in
      let left : mul_W (mul_W (div_W one_W (mul_W c w)) c) w ≡ one_W =
        mul_W_assoc _ c w ∙ mul_W_comm _ (mul_W c w) ∙ mul-div_self (mul_W c w) both in
      sym (one-mul_W _)
      ∙ mul_W_comm one_W _
      ∙ ap (mul_W (mul_W (div_W one_W (mul_W c w)) c)) (sym (mul-div_self w hw))
      ∙ sym (mul_W_assoc _ w (div_W one_W w))
      ∙ ap (λ x. mul_W x (div_W one_W w)) left
      ∙ one-mul_W (div_W one_W w)

  -- A sum divided by its total does not depend on the maximum `t` that was taken out of both.
  pub normalise :
      (t : S) (total part : W) (e : E)
      → pos total ≡ true
      → act (div_W one_W total) (act part e)
        ≡ act (div_W one_W (mul_W (exp t) total)) (act (mul_W (exp t) part) e)
  normalise t total part e h =
      ap (λ x. act x (act part e)) (sym (div-cancel (exp t) total (pos-exp t) h))
      ∙ act-mul _ (exp t) (act part e)
      ∙ ap (act _) (sym (act-mul (exp t) part e))

  pub exp_self : (s : S) → exp (sub_S s s) ≡ one_W
  exp_self s =
      let inv = div_W one_W (exp s) in
      let unit : mul_W inv (exp s) ≡ one_W =
        mul_W_comm inv (exp s) ∙ mul-div_self (exp s) (pos-exp s) in
      sym (one-mul_W _)
      ∙ ap (λ x. mul_W x (exp (sub_S s s))) (sym unit)
      ∙ mul_W_assoc inv (exp s) (exp (sub_S s s))
      ∙ ap (mul_W inv) (exp-sub s s)
      ∙ unit

  max_logit-append :
      (xs : Candidates a) (s : S) (kv : ℕ → E) (m : Logit S)
      → max_logit a (xs ++ (s, kv) ∷ []) m ≡ fin (next_max a (max_logit a xs m) s)
  unfolding max_logit
  max_logit-append [] s kv m = refl
  max_logit-append ((s', kv') ∷ xs) s kv m = max_logit-append xs s kv (fin (next_max a m s'))

  -- After a step the largest candidate so far weighs 1.
  step-floor :
      (m : Logit S) (w : W) (acc : ℕ → E) (s : S) (kv : ℕ → E)
      → (m ≡ neg_inf) ⊎ ((v : W) × (w ≡ add_W one_W v))
      → (v : W) × ((step a (record { max_score = m; denom = w; acc = acc }) s kv).denom
          ≡ add_W one_W v)
  unfolding step next_max exp_below
  step-floor neg_inf w acc s kv f =
      (zero_W, rw (mul-zero_W w, exp_self s) (add_W_comm zero_W one_W))
  step-floor (fin m) w acc s kv (inl e) = cc
  step-floor (fin m) w acc s kv (inr (v, e)) = elim (laws.max_S-cases m s) [
    | inl top ↦ (
      add_W v (exp (sub_S s m)),
      rw (top, exp_self m, mul_W_comm w one_W, one-mul_W w, e) (add_W_assoc one_W v _),
    )
    | inr top ↦ (mul_W w (exp (sub_S m s)), rw (top, exp_self s) (add_W_comm _ one_W))
  ]

  pub step-Holds :
      {dim : ℕ} {xs : Candidates a} {st : State a} (s : S) (kv kv' : ℕ → E)
      → ((d : ℕ) → d < dim → kv d ≡ kv' d)
      → Holds a dim xs st
      → Holds a dim (xs ++ (s, kv') ∷ []) (step a st s kv)
  unfolding step weight_sum value_sum
  step-Holds {xs} {st} s kv kv' same h =
      let r = step-Represents s kv h.represents in
      record {
        represents = record {
          weight =
              r.weight
              ∙ ap (add_W (weight_sum a xs)) (sym (add-zero_W (exp s)))
              ∙ sym (weight_sum-append xs ((s, kv') ∷ []));
          values = λ d k.
              r.values d k
              ∙ ap (λ e. add_E (value_sum a xs d) (act (exp s) e)) (same d k)
              ∙ ap (add_E (value_sum a xs d)) (sym (add-zero_E (act (exp s) (kv' d))))
              ∙ sym (value_sum-append xs ((s, kv') ∷ []) d);
        };
        settled = λ e. cc;
        peak = ap (λ m. fin (next_max a m s)) h.peak ∙ sym (max_logit-append xs s kv' neg_inf);
        floor = inr (step-floor st.max_score st.denom st.acc s kv h.floor);
      }

  pub blank-Holds : {dim : ℕ} → Holds a dim [] (blank a)
  unfolding blank weight_sum value_sum max_logit exp_logit
  blank-Holds = record {
    represents = record { weight = zero-mul_W zero_W; values = λ d h. act-zero zero_E };
    settled = λ e. refl;
    peak = refl;
    floor = inl refl;
  }
