-- ===== src/Tests/TopK.antt =====
-- The union of top-k on a row of five scores over two ranks, with a stable sort by insertion.
use mathlib.Core.List.{Perm, append-nil}
use mathlib.Core.List.Perm
use native.Mathlib.Decide.{ℕ_discrete}
use mathlib.Core.HLevel.{hedberg}
use glm_5_2_gb.Common.{
  ℕ, ◌≤◌, Bool, true, false, ◌≡◌, ◌⊎◌, inl, inr, refl, arith, some, List, [], ◌∷◌, length, get_or,
  ltb, leb, if◌then◌else◌, Bool-cases,
}
use glm_5_2_gb.Common.Permutations.{range, Ordered-imp}
use glm_5_2_gb.Common.Sort.{LinearOrder, insert, into, into-IsOrdered, into-perm_append}
use glm_5_2_gb.Softmax.{neg_inf, fin}
use glm_5_2_gb.Dcp.TopK.{
  Score, is_above, IsStable, Argsort, candidate_union, causal_brute, approach2, brute, strict_topk,
  local_candidates, pad,
}
use glm_5_2_gb.Dcp.TopK.Exact.{candidate_union-eq, approach2-eq}

-- Keys in a strict weak order.
pub record IsWeak {K : Type 0} (lt : K → K → Bool) : Type 0 where
  pub asymm : (x y : K) → lt x y ≡ true → lt y x ≡ false
  pub co_trans : (x y z : K) → lt x y ≡ false → lt y z ≡ false → lt x z ≡ false

module _ {K : Type 0} (lt : K → K → Bool) (default : K) (weak : IsWeak lt) (keys : List K) where
  abbrev key : ℕ → K
  key i = get_or keys i default

  -- The order of the indices by key, then by index.
  index_le : ℕ → ℕ → Bool
  index_le i j = if lt (key i) (key j) then true else if lt (key j) (key i) then false else leb i j

  index_le_total : (i j : ℕ) → (index_le i j ≡ true) ⊎ (index_le j i ≡ true)
  unfolding index_le
  index_le_total i j = ground arith

  index_le_trans : (i j k : ℕ) → index_le i j ≡ true → index_le j k ≡ true → index_le i k ≡ true
  unfolding index_le
  index_le_trans i j k h h' = ground (
    arith,
    weak.asymm (key i) (key j),
    weak.asymm (key j) (key k),
    weak.co_trans (key i) (key k) (key j),
    weak.co_trans (key k) (key j) (key i),
    weak.co_trans (key j) (key i) (key k),
    weak.co_trans (key k) (key i) (key j),
    weak.co_trans (key i) (key j) (key k),
    weak.co_trans (key j) (key k) (key i),
  )

  index_le_antisymm : (i j : ℕ) → index_le i j ≡ true → index_le j i ≡ true → i ≡ j
  unfolding index_le
  index_le_antisymm i j h h' =
      ground (arith, weak.asymm (key i) (key j), weak.asymm (key j) (key i))

  index_order : LinearOrder ℕ
  index_order = record {
    le = index_le;
    total = index_le_total;
    trans = index_le_trans;
    antisymm = index_le_antisymm;
    list_set = hedberg lists-discrete;
  }
    where
      lists-discrete : Discrete (List ℕ)
      lists-discrete = hlevel ℕ_discrete

  pub argsort : List ℕ
  argsort = into index_order (range (length keys)) []

  stable_of_le :
      (i j : ℕ)
      → index_le i j ≡ true
      → (lt (key j) (key i) ≡ false) × (lt (key i) (key j) ≡ false → i ≤ j)
  unfolding index_le
  stable_of_le i j h = elim (Bool-cases (lt (key i) (key j))) [
    | inl e ↦ (weak.asymm (key i) (key j) e, λ e'. cc)
    | inr e ↦ ground arith
  ]

  pub argsort-IsStable : IsStable lt default keys argsort
  unfolding argsort index_order
  argsort-IsStable = record {
    permutes = rw append-nil at (into-perm_append index_order (range (length keys)) []);
    sorted =
        Ordered-imp (λ i j. index_le i j ≡ true) _ stable_of_le _
          (into-IsOrdered index_order (range (length keys)) [] tt);
  }

lt-IsWeak : IsWeak ltb
lt-IsWeak = record { asymm = λ x y h. ground arith; co_trans = λ x y z h k. ground arith }

above_asymm : (x y : Score) → is_above x y ≡ true → is_above y x ≡ false
unfolding is_above
above_asymm x y h = ground arith

above_co_trans :
    (x y z : Score) → is_above x y ≡ false → is_above y z ≡ false → is_above x z ≡ false
unfolding is_above
above_co_trans x y z h k = ground arith

above-IsWeak : IsWeak is_above
above-IsWeak = record { asymm = above_asymm; co_trans = above_co_trans }

by_insertion : Argsort
by_insertion = record {
  ascending = argsort ltb 0 lt-IsWeak;
  descending = argsort is_above neg_inf above-IsWeak;
  ascending-IsStable = argsort-IsStable ltb 0 lt-IsWeak;
  descending-IsStable = argsort-IsStable is_above neg_inf above-IsWeak;
}

-- A tie of positions 1, 2 and 4, and a score of -inf.
abbrev row : List Score
row = fin 3 ∷ fin 7 ∷ fin 7 ∷ neg_inf ∷ fin 7 ∷ []

-- The ranks in reverse.
abbrev ranks : List ℕ
ranks = 1 ∷ 0 ∷ []

ranks-perm : Perm ranks (range 2)
ranks-perm = Perm.swap 0 1 []

candidate_union_example :
    candidate_union by_insertion row 4 2 2 ranks ≡ causal_brute by_insertion row 4 2
candidate_union_example =
    candidate_union-eq by_insertion row 2 (omega arith) 4 2 ranks (omega arith) ranks-perm

approach2_example : approach2 by_insertion row 2 2 ranks ≡ brute by_insertion row 2
approach2_example = approach2-eq by_insertion row 2 (omega arith) 2 ranks (omega arith) ranks-perm

-- What is selected: of the tie, the two with the lowest positions.
approach2_run : approach2 by_insertion row 2 2 ranks ≡ some 1 ∷ some 2 ∷ []
unfolding approach2 local_candidates strict_topk pad by_insertion argsort index_order index_le
    insert into is_above
approach2_run = refl
