-- ===== src/Dcp/TopK/Order.antt =====
-- The strict order of the candidates: score from high to low, then global position from low to high,
-- with an invalid position last.
use native.Mathlib.Decide.{ℕ_discrete}
use mathlib.Core.HLevel.{hedberg}
use glm_5_2_gb.Common.{
  ℕ, Bool, true, false, ◌≡◌, ◌⊎◌, inl, inr, refl, arith, Option, none, some, List, ltb, leb,
  if◌then◌else◌,
}
use glm_5_2_gb.Common.Sort.{LinearOrder}
use glm_5_2_gb.Common.Sort.Best.{best}
use glm_5_2_gb.Softmax.{neg_inf, fin}
use glm_5_2_gb.Dcp.TopK.{Score, demote_pos}

abbrev pub Lane : Type 0
Lane = Score × Option ℕ

-- What stands for no candidate.
abbrev pub invalid : Lane
invalid = (neg_inf, none)

-- A selected lane of score -inf loses its position.
abbrev pub demote : Lane → Lane
demote (s, p) = (s, demote_pos s p)

abbrev pos_le : Option ℕ → Option ℕ → Bool
pos_le p none = true
pos_le none (some q) = false
pos_le (some p) (some q) = leb p q

abbrev score_le : Score → Score → Bool → Bool
score_le neg_inf neg_inf b = b
score_le neg_inf (fin n) b = false
score_le (fin m) neg_inf b = true
score_le (fin m) (fin n) b = if ltb n m then true else if ltb m n then false else b

unfoldable pub lane_le : Lane → Lane → Bool
lane_le (s, p) (t, q) = score_le s t (pos_le p q)

pos_le_total : (p q : Option ℕ) → (pos_le p q ≡ true) ⊎ (pos_le q p ≡ true)
pos_le_total p none = inl refl
pos_le_total none (some q) = inr refl
pos_le_total (some p) (some q) = ground arith

pub lane_le_total : (x y : Lane) → (lane_le x y ≡ true) ⊎ (lane_le y x ≡ true)
unfolding lane_le
lane_le_total (neg_inf, p) (neg_inf, q) = pos_le_total p q
lane_le_total (neg_inf, p) (fin n, q) = inr refl
lane_le_total (fin m, p) (neg_inf, q) = inl refl
lane_le_total (fin m, p) (fin n, q) = ground (arith, pos_le_total p q)

pos_le_trans : (p q r : Option ℕ) → pos_le p q ≡ true → pos_le q r ≡ true → pos_le p r ≡ true
pos_le_trans p q none h k = refl
pos_le_trans p none (some r) h k = absurd (cc)
pos_le_trans none (some q) (some r) h k = absurd (cc)
pos_le_trans (some p) (some q) (some r) h k = ground arith

pub lane_le_trans : (x y z : Lane) → lane_le x y ≡ true → lane_le y z ≡ true → lane_le x z ≡ true
unfolding lane_le
lane_le_trans (s, p) (t, q) (u, r) h k = ground (arith, pos_le_trans p q r)

pos_le_antisymm : (p q : Option ℕ) → pos_le p q ≡ true → pos_le q p ≡ true → p ≡ q
pos_le_antisymm p q h k = ground arith

pub lane_le_antisymm : (x y : Lane) → lane_le x y ≡ true → lane_le y x ≡ true → x ≡ y
unfolding lane_le
lane_le_antisymm (s, p) (t, q) h k = ground (arith, pos_le_antisymm p q)

lanes-discrete : Discrete (List Lane)
lanes-discrete = hlevel ℕ_discrete

pub lanes_set : IsSet (List Lane)
lanes_set = hedberg lanes-discrete

unfoldable pub lane_order : LinearOrder Lane
lane_order = record {
  le = lane_le;
  total = lane_le_total;
  trans = lane_le_trans;
  antisymm = lane_le_antisymm;
  list_set = lanes_set;
}

pub le-invalid : (x : Lane) → lane_order.le x invalid ≡ true
unfolding lane_order lane_le
le-invalid (neg_inf, p) = refl
le-invalid (fin s, p) = refl

-- The first `k` lanes of the strict order, padded with invalid ones.
abbrev pub best_lanes : ℕ → List Lane → List Lane
best_lanes = best lane_order invalid le-invalid
