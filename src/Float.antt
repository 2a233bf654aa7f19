-- ===== src/Float.antt =====
-- The float32 arithmetic of the kernels (`tl.exp`, `tl.maximum`, `tl.sum`, ...), which is Triton's and
-- not the repository's: a parameter. A float32 is split by its role: a logit (a score, a running
-- maximum, an lse), a weight (an exponential, a denominator) and an element of a query, a key-value
-- row, an accumulator or an output. Rounding is not modelled: `IsExact` states the laws of the exact
-- operations. The float -inf of a maximum, an lse or a sink is a constructor of `Logit`.
pub mod Tropical
use glm_5_2_gb.Common.{Bool, true, false, ◌||◌, ◌&&◌, ◌≡◌, ◌⊎◌}

pub record Arith : Type 1 where
  pub S : Type 0
  pub W : Type 0
  pub E : Type 0
  pub add_S : S → S → S
  pub sub_S : S → S → S
  pub mul_S : S → S → S
  pub zero_S : S
  pub max_S : S → S → S
  pub exp : S → W
  pub log : W → S
  pub zero_W : W
  pub one_W : W
  pub add_W : W → W → W
  pub mul_W : W → W → W
  pub div_W : W → W → W
  -- `denom.clamp_min(1e-30)`
  pub clamp_min : W → W
  -- `w > 0.0`
  pub pos : W → Bool
  pub zero_E : E
  pub add_E : E → E → E
  -- an element times a weight
  pub act : W → E → E
  -- an element divided by a weight
  pub quot : E → W → E
  -- the product of a query element and a key element
  pub prod : E → E → S

-- Weights are not negative; elements may have either sign.
pub record IsExact (a : Arith) : Type 0 where
  pub exp-sub : (s t : a.S) → a.mul_W (a.exp t) (a.exp (a.sub_S s t)) ≡ a.exp s
  pub exp-add-log :
      (s : a.S) (w : a.W) → a.pos w ≡ true → a.add_S s (a.log w) ≡ a.log (a.mul_W (a.exp s) w)
  pub exp-log : (w : a.W) → a.pos w ≡ true → a.exp (a.log w) ≡ w
  pub pos-exp : (s : a.S) → a.pos (a.exp s) ≡ true
  pub pos-zero : a.pos a.zero_W ≡ false
  pub pos-one : a.pos a.one_W ≡ true
  pub zero_of_not_pos : (w : a.W) → a.pos w ≡ false → w ≡ a.zero_W
  pub pos-add : (v w : a.W) → a.pos (a.add_W v w) ≡ (a.pos v || a.pos w)
  pub pos-mul : (v w : a.W) → a.pos (a.mul_W v w) ≡ (a.pos v && a.pos w)
  pub add_W_comm : (v w : a.W) → a.add_W v w ≡ a.add_W w v
  pub add_W_assoc : (u v w : a.W) → a.add_W (a.add_W u v) w ≡ a.add_W u (a.add_W v w)
  pub zero-add_W : (w : a.W) → a.add_W a.zero_W w ≡ w
  pub mul_W_comm : (v w : a.W) → a.mul_W v w ≡ a.mul_W w v
  pub mul_W_assoc : (u v w : a.W) → a.mul_W (a.mul_W u v) w ≡ a.mul_W u (a.mul_W v w)
  pub one-mul_W : (w : a.W) → a.mul_W a.one_W w ≡ w
  pub zero-mul_W : (w : a.W) → a.mul_W a.zero_W w ≡ a.zero_W
  pub mul-add_W : (u v w : a.W) → a.mul_W u (a.add_W v w) ≡ a.add_W (a.mul_W u v) (a.mul_W u w)
  pub mul-div_self : (w : a.W) → a.pos w ≡ true → a.mul_W w (a.div_W a.one_W w) ≡ a.one_W
  pub div-eq-mul : (v w : a.W) → a.pos w ≡ true → a.div_W v w ≡ a.mul_W v (a.div_W a.one_W w)
  pub add_E_comm : (d e : a.E) → a.add_E d e ≡ a.add_E e d
  pub add_E_assoc : (d e f : a.E) → a.add_E (a.add_E d e) f ≡ a.add_E d (a.add_E e f)
  pub zero-add_E : (e : a.E) → a.add_E a.zero_E e ≡ e
  pub act-one : (e : a.E) → a.act a.one_W e ≡ e
  pub act-zero : (e : a.E) → a.act a.zero_W e ≡ a.zero_E
  pub act-zero_E : (w : a.W) → a.act w a.zero_E ≡ a.zero_E
  pub act-mul : (v w : a.W) (e : a.E) → a.act (a.mul_W v w) e ≡ a.act v (a.act w e)
  pub act-add : (v w : a.W) (e : a.E) → a.act (a.add_W v w) e ≡ a.add_E (a.act v e) (a.act w e)
  pub act-add_E : (w : a.W) (d e : a.E) → a.act w (a.add_E d e) ≡ a.add_E (a.act w d) (a.act w e)
  pub quot-eq-act : (e : a.E) (w : a.W) → a.pos w ≡ true → a.quot e w ≡ a.act (a.div_W a.one_W w) e
  pub clamp-one_add : (w : a.W) → a.clamp_min (a.add_W a.one_W w) ≡ a.add_W a.one_W w
  pub prod-zero_E : a.prod a.zero_E a.zero_E ≡ a.zero_S
  pub add_S_assoc : (s t u : a.S) → a.add_S (a.add_S s t) u ≡ a.add_S s (a.add_S t u)
  pub add-zero_S : (s : a.S) → a.add_S s a.zero_S ≡ s
  pub max_S-cases : (s t : a.S) → (a.max_S s t ≡ s) ⊎ (a.max_S s t ≡ t)
  pub max_S_comm : (s t : a.S) → a.max_S s t ≡ a.max_S t s
  pub max_S_assoc : (s t u : a.S) → a.max_S (a.max_S s t) u ≡ a.max_S s (a.max_S t u)
