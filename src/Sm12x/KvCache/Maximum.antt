-- ===== src/Sm12x/KvCache/Maximum.antt =====
-- The maximum of logits, and the weight of a state before a tile.
use glm_5_2_gb.Common.{◌≡◌, ◌⊎◌, inl, inr, refl, sym, ap, ◌∙◌, [], ◌∷◌, ◌++◌, if◌then◌else◌}
use glm_5_2_gb.Float.{Arith, IsExact}
use glm_5_2_gb.Softmax.{Logit, neg_inf, fin, Candidates, next_max, exp_below, exp_logit, max_logit}
use glm_5_2_gb.Softmax.Laws.{exp-exp_below, exp_self}
use glm_5_2_gb.SparseMla.Finish.{is_finite, maximum}

module _ {a : Arith} (laws : IsExact a) where
  open a use {S, W, E, sub_S, exp, zero_W, one_W, add_W, mul_W, zero_E, add_E, act}
  open laws use {
    exp-sub, mul_W_comm, one-mul_W, zero-mul_W, mul-add_W, add_W_comm, add_W_assoc, zero-add_W,
    act-zero, act-zero_E, act-mul, act-add_E, zero-add_E,
  }

  pub maximum_assoc : (x y z : Logit S) → maximum a (maximum a x y) z ≡ maximum a x (maximum a y z)
  unfolding maximum
  maximum_assoc neg_inf y z = refl
  maximum_assoc (fin m) neg_inf z = refl
  maximum_assoc (fin m) (fin n) neg_inf = refl
  maximum_assoc (fin m) (fin n) (fin k) = ap fin (laws.max_S_assoc m n k)

  pub maximum-neg_inf : (x : Logit S) → maximum a x neg_inf ≡ x
  unfolding maximum
  maximum-neg_inf neg_inf = refl
  maximum-neg_inf (fin m) = refl

  pub maximum-fin : (m : Logit S) (s : S) → fin (next_max a m s) ≡ maximum a m (fin s)
  unfolding maximum next_max
  maximum-fin neg_inf s = refl
  maximum-fin (fin m) s = refl

  pub max_logit-eq :
      (xs : Candidates a) (m : Logit S) → max_logit a xs m ≡ maximum a m (max_logit a xs neg_inf)
  unfolding max_logit next_max
  max_logit-eq [] m = sym (maximum-neg_inf m)
  max_logit-eq ((s, kv) ∷ xs) m =
      max_logit-eq xs (fin (next_max a m s))
      ∙ ap (λ x. maximum a x (max_logit a xs neg_inf)) (maximum-fin m s)
      ∙ maximum_assoc m (fin s) (max_logit a xs neg_inf)
      ∙ ap (maximum a m) (sym (max_logit-eq xs (fin s)))

  pub max_logit-append :
      (xs ys : Candidates a) (m : Logit S)
      → max_logit a (xs ++ ys) m ≡ max_logit a ys (max_logit a xs m)
  unfolding max_logit
  max_logit-append [] ys m = refl
  max_logit-append ((s, kv) ∷ xs) ys m = max_logit-append xs ys (fin (next_max a m s))

  -- A finite maximum is one of the two.
  pub maximum-cases : (x y : Logit S) (t : S) → maximum a x y ≡ fin t → (x ≡ fin t) ⊎ (y ≡ fin t)
  unfolding maximum
  maximum-cases neg_inf y t h = inr h
  maximum-cases (fin m) neg_inf t h = inl h
  maximum-cases (fin m) (fin n) t h = elim (laws.max_S-cases m n) [
    | inl e ↦ inl (ap fin (sym e) ∙ h)
    | inr e ↦ inr (ap fin (sym e) ∙ h)
  ]

  pub maximum-fin_neg : (m : S) (y : Logit S) → ¬ (maximum a (fin m) y ≡ neg_inf)
  unfolding maximum
  maximum-fin_neg m neg_inf h = cc
  maximum-fin_neg m (fin n) h = cc

  pub maximum-neg : (x y : Logit S) → maximum a x y ≡ neg_inf → (x ≡ neg_inf) × (y ≡ neg_inf)
  unfolding maximum
  maximum-neg neg_inf y h = (refl, h)
  maximum-neg (fin m) neg_inf h = cc
  maximum-neg (fin m) (fin n) h = cc

  -- `previous_weight`: the guard of exp(-inf - ...) changes nothing.
  abbrev pub previous : Logit S → S → W
  previous m t = if is_finite a m then exp_below a m t else zero_W

  pub exp-previous : (m : Logit S) (t : S) → mul_W (exp t) (previous m t) ≡ exp_logit a m
  unfolding is_finite exp_below
  exp-previous neg_inf t = exp-exp_below laws neg_inf t
  exp-previous (fin m) t = exp-exp_below laws (fin m) t

  pub previous_self : (t : S) → previous (fin t) t ≡ one_W
  unfolding is_finite exp_below
  previous_self t = exp_self laws t

  pub fin-neg : (t : S) → ¬ (fin t ≡ neg_inf)
  fin-neg t h = cc

  pub fin-inj : (s t : S) → fin s ≡ fin t → s ≡ t
  fin-inj s t h = cc

  pub left_comm : (u v w : W) → add_W u (add_W v w) ≡ add_W v (add_W u w)
  left_comm u v w =
      sym (add_W_assoc u v w) ∙ ap (λ x. add_W x w) (add_W_comm u v) ∙ add_W_assoc v u w
