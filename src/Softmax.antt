-- ===== src/Softmax.antt =====
-- Attention over a list of candidates, each a logit and a key-value row: the reference (every
-- exponential summed in one pass), and the online form in which the kernels compute it, of
-- kernels/sparse_mla_kernels.py. A row is a function of the dimension.
pub mod Laws
use glm_5_2_gb.Common.{ℕ, Bool, true, false, List, [], ◌∷◌, ◌++◌, if◌then◌else◌}
use glm_5_2_gb.Float.{Arith}

-- A maximum, an lse or a sink: -inf, or a number.
pub data Logit (S : Type 0) : Type 0 where
  neg_inf : Logit S
  fin : S → Logit S

pub record State (a : Arith) : Type 0 where
  pub max_score : Logit a.S
  pub denom : a.W
  pub acc : ℕ → a.E

module _ (a : Arith) where
  open a use {
    S, W, E, sub_S, max_S, exp, log, zero_W, one_W, add_W, mul_W, div_W, pos, zero_E, add_E, act,
  }

  abbrev pub Row : Type 0
  Row = ℕ → E

  abbrev pub Candidates : Type 0
  Candidates = List (S × Row)

  -- `tl.maximum(running_max, score)`
  unfoldable pub next_max : Logit S → S → S
  next_max neg_inf s = s
  next_max (fin m) s = max_S m s

  -- `tl.exp(running_max - next_max)`, where exp(-inf) is 0
  unfoldable pub exp_below : Logit S → S → W
  exp_below neg_inf t = zero_W
  exp_below (fin m) t = exp (sub_S m t)

  -- The online-softmax update by one candidate.
  unfoldable pub step : State a → S → Row → State a
  step st score kv =
      let next = next_max st.max_score score in
      let previous_weight = exp_below st.max_score next in
      let candidate_weight = exp (sub_S score next) in
      record {
        max_score = fin next;
        denom = add_W (mul_W st.denom previous_weight) candidate_weight;
        acc = λ d. add_E (act previous_weight (st.acc d)) (act candidate_weight (kv d));
      }

  -- The updates by a list of candidates, in order.
  unfoldable pub absorb : Candidates → State a → State a
  absorb [] st = st
  absorb ((score, kv) ∷ xs) st = absorb xs (step st score kv)

  -- The reference: sums of exponentials with no maximum subtracted.
  unfoldable pub weight_sum : Candidates → W
  weight_sum [] = zero_W
  weight_sum ((score, kv) ∷ xs) = add_W (exp score) (weight_sum xs)

  unfoldable pub value_sum : Candidates → Row
  value_sum [] d = zero_E
  value_sum ((score, kv) ∷ xs) d = add_E (act (exp score) (kv d)) (value_sum xs d)

  -- exp of a logit, with exp(-inf) = 0
  unfoldable pub exp_logit : Logit S → W
  exp_logit neg_inf = zero_W
  exp_logit (fin m) = exp m

  -- Softmax attention with a sink that takes a share of the weight and has no value. With no weight at
  -- all the output is 0.
  unfoldable pub attention : Candidates → Logit S → Row
  attention xs sink d =
      let total = add_W (weight_sum xs) (exp_logit sink) in
      if pos total then act (div_W one_W total) (value_sum xs d) else zero_E

  -- logsumexp of the logits
  unfoldable pub log_sum_exp : Candidates → Logit S
  log_sum_exp xs = if pos (weight_sum xs) then fin (log (weight_sum xs)) else neg_inf

  unfoldable pub max_logit : Candidates → Logit S → Logit S
  max_logit [] m = m
  max_logit ((score, kv) ∷ xs) m = max_logit xs (fin (next_max m score))

  -- The state of a kernel before its first candidate.
  unfoldable pub blank : State a
  blank = record { max_score = neg_inf; denom = zero_W; acc = λ d. zero_E }
