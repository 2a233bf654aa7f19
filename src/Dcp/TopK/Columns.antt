-- ===== src/Dcp/TopK/Columns.antt =====
-- Every column has one owner: the best of all the ranks' lanes is the best of the row's.
use native.Mathlib.Nat.{mod-lt}
use native.Mathlib.Decide.{ℕ_discrete}
use mathlib.Core.List.{append_assoc, Perm, Permᴰ, perm_append_comm}
use mathlib.Core.List.Perm
use mathlib.Core.List.{Perm-prop}
use mathlib.Core.Logic.{∥∥₁_elim}
use glm_5_2_gb.Common.{
  ℕ, zero, suc, ◌+◌, ◌%◌, ◌≤◌, ◌<◌, Bool, false, ◌&&◌, ◌≡◌, ◌≢◌, refl, sym, ap, ◌∙◌, arith, some,
  List, [], ◌∷◌, ◌++◌, map, length, take, tabulate, fun_ext, ==_iff, ◌==◌, if◌then◌else◌,
  Bool-cases, inl, inr,
}
use glm_5_2_gb.Common.Permutations.{range}
use glm_5_2_gb.Common.Sort.{into}
use glm_5_2_gb.Common.Sort.Best.{best-perm, best-append, best-last}
use glm_5_2_gb.Dcp.TopK.{Score, concat_map, mask_scores, mask_cols, demote_pos}
use glm_5_2_gb.Dcp.TopK.Order.{Lane, invalid, demote, lane_order, le-invalid, best_lanes}
use glm_5_2_gb.Dcp.TopK.Select.{lanes_of}

-- The demoted lanes of the columns from `i` on that pass a test, and invalid lanes for the others.
unfoldable pub masked : (ℕ → Bool) → ℕ → List Score → List Lane
masked test i scores =
    map demote (lanes_of (mask_scores test i scores) (mask_cols test (length scores) i))

unfoldable pub cell : (ℕ → Bool) → ℕ → Score → Lane
cell test i s = if test i then demote (s, some i) else invalid

pub masked-cons :
    (test : ℕ → Bool) (i : ℕ) (s : Score) (scores : List Score)
    → masked test i (s ∷ scores) ≡ cell test i s ∷ masked test (suc i) scores
unfolding masked cell mask_scores mask_cols demote_pos
masked-cons test i s scores = elim (Bool-cases (test i)) [ inl e ↦ rw e refl | inr e ↦ rw e refl ]

-- The best beside anything depends only on the best of the rest.
pub best-cons-congr :
    (k : ℕ) (x : Lane) (xs ys : List Lane)
    → best_lanes k xs ≡ best_lanes k ys
    → best_lanes k (x ∷ xs) ≡ best_lanes k (x ∷ ys)
best-cons-congr k x xs ys e =
    best-append lane_order invalid le-invalid k (x ∷ []) xs
    ∙ ap (λ t. take k (into lane_order (x ∷ []) t)) e
    ∙ sym (best-append lane_order invalid le-invalid k (x ∷ []) ys)

best-append-congr :
    (k : ℕ) (zs xs ys : List Lane)
    → best_lanes k xs ≡ best_lanes k ys
    → best_lanes k (zs ++ xs) ≡ best_lanes k (zs ++ ys)
best-append-congr k [] xs ys e = e
best-append-congr k (z ∷ zs) xs ys e =
    best-cons-congr k z (zs ++ xs) (zs ++ ys) (best-append-congr k zs xs ys e)

-- First the head of each part, then the rest.
heads_first :
    (x : ℕ → Lane) (rest : ℕ → List Lane) (rs : List ℕ)
    → Perm (concat_map (λ r. x r ∷ rest r) rs) (map x rs ++ concat_map rest rs)
heads_first x rest [] = Perm.refl []
heads_first x rest (r ∷ rs) =
    let heads = map x rs in
    let tails = concat_map rest rs in
    Perm.cons (x r) (
      Perm.trans (Perm.append_left (rest r) (heads_first x rest rs)) (
        rw (append_assoc, append_assoc) at
          (Perm.append_right tails (perm_append_comm (rest r) heads))))

concat_map-nil : {A : Type 0} (rs : List ℕ) → concat_map {A = A} (λ r. []) rs ≡ []
concat_map-nil [] = refl
concat_map-nil (r ∷ rs) = concat_map-nil rs

-- One owner among the ranks from `j` on.
module _ (k : ℕ) (x : ℕ → Lane) (owner : ℕ) (others : (r : ℕ) → r ≢ owner → x r ≡ invalid)
    (ys : List Lane) where
  no_owner :
      (m j : ℕ) → owner < j → best_lanes k (map x (tabulate (λ r. r) m j) ++ ys) ≡ best_lanes k ys
  no_owner zero j h = refl
  no_owner (suc m) j h =
      ap (λ t. best_lanes k (t ∷ map x (tabulate (λ r. r) m (suc j)) ++ ys))
        (others j (omega arith))
      ∙ best-last lane_order invalid le-invalid k _
      ∙ no_owner m (suc j) (omega arith)

  pub one_owner :
      (m j : ℕ)
      → j ≤ owner
      → owner < j + m
      → best_lanes k (map x (tabulate (λ r. r) m j) ++ ys) ≡ best_lanes k (x owner ∷ ys)
  one_owner zero j low high = absurd (omega arith)
  one_owner (suc m) j low high = elim (ℕ_discrete j owner) [
    | yes e ↦ rw e (best-cons-congr k (x owner) _ ys (no_owner m (suc owner) (omega arith)))
    | no ne ↦
        ap (λ t. best_lanes k (t ∷ map x (tabulate (λ r. r) m (suc j)) ++ ys)) (others j ne)
        ∙ best-last lane_order invalid le-invalid k _
        ∙ one_owner m (suc j) (omega arith) (omega arith)
  ]

-- The columns of a rank among the valid ones.
abbrev pub owned : ℕ → (ℕ → Bool) → ℕ → ℕ → Bool
owned n valid r col = (col % n == r) && valid col

module _ (k n : ℕ) (some_rank : 0 < n) (valid : ℕ → Bool) where
  unowned : (i : ℕ) (s : Score) (r : ℕ) → r ≢ i % n → cell (owned n valid r) i s ≡ invalid
  unfolding cell
  unowned i s r ne = let other : ((i % n) == r) ≡ false = ground arith in rw other refl

  owns : (i : ℕ) (s : Score) → cell (owned n valid (i % n)) i s ≡ cell valid i s
  unfolding cell
  owns i s = rw ((==_iff (i % n) (i % n)).1 refl) refl

  -- Over all the ranks, the lanes of the columns that they own are the lanes of the row.
  pub best-owned :
      (i : ℕ) (scores : List Score) (ys : List Lane)
      → best_lanes k (concat_map (λ r. masked (owned n valid r) i scores) (range n) ++ ys)
        ≡ best_lanes k (masked valid i scores ++ ys)
  unfolding masked mask_scores mask_cols
  best-owned i [] ys = ap (λ t. best_lanes k (t ++ ys)) (concat_map-nil (range n))
  best-owned i (s ∷ scores) ys =
      let owner = i % n in
      let head = λ (r : ℕ). cell (owned n valid r) i s in
      let rest = λ (r : ℕ). masked (owned n valid r) (suc i) scores in
      ap (λ f. best_lanes k (concat_map f (range n) ++ ys))
        (fun_ext λ r. masked-cons (owned n valid r) i s scores)
      ∙ best-perm lane_order invalid le-invalid k _ _
          (Perm.append_right ys (heads_first head rest (range n)))
      ∙ ap (best_lanes k) (append_assoc (map head (range n)) (concat_map rest (range n)) ys)
      ∙ best-append-congr k (map head (range n)) _ _ (best-owned (suc i) scores ys)
      ∙ one_owner k head owner (unowned i s) (masked valid (suc i) scores ++ ys) n 0 (omega arith)
          (omega (arith, mod-lt i some_rank))
      ∙ ap (λ t. best_lanes k (t ∷ masked valid (suc i) scores ++ ys)) (owns i s)
      ∙ ap (λ t. best_lanes k (t ++ ys)) (sym (masked-cons valid i s scores))

concat_map-Permᴰ :
    (f : ℕ → List Lane) {rs rs' : List ℕ} → Permᴰ rs rs' → Perm (concat_map f rs) (concat_map f rs')
concat_map-Permᴰ f Permᴰ.nil = Perm.refl []
concat_map-Permᴰ f (Permᴰ.cons {b} e p) = rw e (Perm.append_left (f b) (concat_map-Permᴰ f p))
concat_map-Permᴰ f (Permᴰ.swap {a'} {b'} {l} e e') =
    rw (e, e')
      (rw (append_assoc, append_assoc) at
        (Perm.append_right (concat_map f l) (perm_append_comm (f b') (f a'))))
concat_map-Permᴰ f (Permᴰ.trans p q) = Perm.trans (concat_map-Permᴰ f p) (concat_map-Permᴰ f q)

-- The order in which the ranks are gathered does not matter.
pub best-ranks :
    (k : ℕ) (f : ℕ → List Lane) (rs rs' : List ℕ)
    → Perm rs rs'
    → best_lanes k (concat_map f rs) ≡ best_lanes k (concat_map f rs')
best-ranks k f rs rs' p =
    best-perm lane_order invalid le-invalid k _ _ (∥∥₁_elim p Perm-prop (λ d. concat_map-Permᴰ f d))
