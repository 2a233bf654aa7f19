-- ===== src/Prune/Bias.antt =====
-- The keep list by bias: `bias_keeplist` of prune/awq_surgery.py. A bias is a number of which only the
-- order counts, and `sorted`, which is stable, is a sort by insertion.
use mathlib.Core.List.{
  Perm, Nodup, Mem, append-nil, Nodup-cons, mem-cons_self, mem-cons_of_mem, mem-cast, not-mem-nil,
  eq-or-mem_of_mem-cons, Pairwise, Nodup-append,
}
use mathlib.Core.List.Perm
use native.Mathlib.Decide.{ℕ_discrete}
use mathlib.Core.HLevel.{hedberg, ⊥_prop}
use mathlib.Core.Logic.Or
use glm_5_2_gb.Common.{
  ℕ, zero, suc, ◌<◌, ◌≤◌, Bool, true, false, ◌≡◌, ◌⊎◌, ◌∙◌, arith, List, [], ◌∷◌, ◌++◌, length,
  length-tabulate, length-take_of_le, take, drop, take-append-drop, All, Ordered, tabulate, ltb,
  leb, if◌then◌else◌,
}
use glm_5_2_gb.Common.Permutations.{range, length-perm}
use glm_5_2_gb.Common.Sort.{LinearOrder, into, into-IsOrdered, into-perm_append, All-into}

pub lists_set : IsSet (List ℕ)
lists_set = hedberg lists-discrete
  where
    lists-discrete : Discrete (List ℕ)
    lists-discrete = hlevel ℕ_discrete

pub leb_total : (x y : ℕ) → (leb x y ≡ true) ⊎ (leb y x ≡ true)
leb_total x y = ground arith

pub leb_trans : (x y z : ℕ) → leb x y ≡ true → leb y z ≡ true → leb x z ≡ true
leb_trans x y z h k = ground arith

pub leb_antisymm : (x y : ℕ) → leb x y ≡ true → leb y x ≡ true → x ≡ y
leb_antisymm x y h k = ground arith

unfoldable pub number_order : LinearOrder ℕ
number_order = record {
  le = leb;
  total = leb_total;
  trans = leb_trans;
  antisymm = leb_antisymm;
  list_set = lists_set;
}

module _ (bias : ℕ → ℕ) where
  -- The order of a stable sort of the experts by bias.
  unfoldable pub bias_le : ℕ → ℕ → Bool
  bias_le i j =
      if ltb (bias i) (bias j) then true else if ltb (bias j) (bias i) then false else leb i j

  pub bias_le_total : (i j : ℕ) → (bias_le i j ≡ true) ⊎ (bias_le j i ≡ true)
  unfolding bias_le
  bias_le_total i j = ground arith

  pub bias_le_trans : (i j k : ℕ) → bias_le i j ≡ true → bias_le j k ≡ true → bias_le i k ≡ true
  unfolding bias_le
  bias_le_trans i j k h h' = ground arith

  pub bias_le_antisymm : (i j : ℕ) → bias_le i j ≡ true → bias_le j i ≡ true → i ≡ j
  unfolding bias_le
  bias_le_antisymm i j h h' = ground arith

  unfoldable pub bias_order : LinearOrder ℕ
  bias_order = record {
    le = bias_le;
    total = bias_le_total;
    trans = bias_le_trans;
    antisymm = bias_le_antisymm;
    list_set = lists_set;
  }

  unfoldable pub bias_keeplist : ℕ → ℕ → List ℕ
  unfolding bias_order number_order
  bias_keeplist num_experts n_keep =
      let order = into bias_order (range num_experts) [] in into number_order (take n_keep order) []

-- A sorted list without duplicates is strictly ascending.
All-strict : (x : ℕ) (l : List ℕ) → All (λ y. leb x y ≡ true) l → ¬ Mem x l → All (λ y. x < y) l
All-strict x [] h m = tt
All-strict x (y ∷ l) h m =
    let differs : ¬ (x ≡ y) = λ e. m (mem-cast e mem-cons_self) in
    (ground arith, All-strict x l h.1 (λ k. m (mem-cons_of_mem y k)))

Ordered-strict :
    (l : List ℕ) → Ordered (λ x y. leb x y ≡ true) l → Nodup l → Ordered (λ x y. x < y) l
Ordered-strict [] o n = tt
Ordered-strict (x ∷ l) o n =
    let (fresh, rest) = Nodup-cons.0 n in (All-strict x l o.0 fresh, Ordered-strict l o.1 rest)

All-drop : (P : ℕ → Type 0) (n : ℕ) (l : List ℕ) → All P l → All P (drop n l)
All-drop P zero l h = h
All-drop P (suc n) [] h = tt
All-drop P (suc n) (y ∷ l) h = All-drop P n l h.1

-- A sorted list's first elements are before the others.
Ordered-take :
    (R : ℕ → ℕ → Type 0) (n : ℕ) (l : List ℕ)
    → Ordered R l
    → All (λ x. All (R x) (drop n l)) (take n l)
Ordered-take R zero l o = tt
Ordered-take R (suc n) [] o = tt
Ordered-take R (suc n) (x ∷ l) o = (All-drop (R x) n l o.0, Ordered-take R n l o.1)

fresh_below : (x n i : ℕ) → x < i → ¬ Mem x (tabulate (λ e. e) n i)
fresh_below x zero i h m = not-mem-nil m
fresh_below x (suc n) i h m =
    Or.elim ⊥_prop (eq-or-mem_of_mem-cons m) (λ e. absurd (omega arith))
      (fresh_below x n (suc i) (omega arith))

Nodup-tabulate : (n i : ℕ) → Nodup (tabulate (λ e. e) n i)
Nodup-tabulate zero i = Pairwise.nil
Nodup-tabulate (suc n) i =
    Nodup-cons.1 (fresh_below i n (suc i) (omega arith), Nodup-tabulate n (suc i))

-- For no more experts to keep than there are: the keep list by bias has that many experts in
-- strictly ascending order, it and the dropped ones are the experts, each once, and each kept one
-- has a lower bias than each dropped one, or the same bias and a lower number.
pub bias_keeplist_lem :
    (bias : ℕ → ℕ) (num_experts n_keep : ℕ)
    → n_keep ≤ num_experts
    → let keep = bias_keeplist bias num_experts n_keep in
      (length keep ≡ n_keep)
      × Ordered (λ k k'. k < k') keep
      × ((dropped : List ℕ) × Perm (keep ++ dropped) (range num_experts)
          × All (λ k. All (λ d. bias_le bias k d ≡ true) dropped) keep)
unfolding bias_keeplist bias_order number_order
bias_keeplist_lem bias num_experts n_keep fewer =
    let order = into (bias_order bias) (range num_experts) [] in
    let keep = into number_order (take n_keep order) [] in
    let dropped = drop n_keep order in
    let all : Perm order (range num_experts) =
      rw append-nil at (into-perm_append (bias_order bias) (range num_experts) []) in
    let chosen : Perm keep (take n_keep order) =
      rw append-nil at (into-perm_append number_order (take n_keep order) []) in
    let size : length order ≡ num_experts =
      length-perm order (range num_experts) all ∙ length-tabulate _ num_experts 0 in
    let split : Perm (keep ++ dropped) (range num_experts) =
      Perm.trans (rw (take-append-drop n_keep order) at (Perm.append_right dropped chosen)) all in
    let distinct : Nodup (keep ++ dropped) =
      Perm.nodup (Perm.symm split) (Nodup-tabulate num_experts 0) in
    (
      length-perm keep (take n_keep order) chosen ∙ length-take_of_le n_keep order (omega arith),
      Ordered-strict keep (into-IsOrdered number_order (take n_keep order) [] tt)
          (Nodup-append.0 distinct).0,
      (
        dropped,
        split,
        All-into number_order _ (take n_keep order) []
            (Ordered-take _ n_keep order
              (into-IsOrdered (bias_order bias) (range num_experts) [] tt))
            tt,
      ),
    )
