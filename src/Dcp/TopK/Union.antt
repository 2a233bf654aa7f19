-- ===== src/Dcp/TopK/Union.antt =====
-- The union of the ranks' candidates has the top-k of the whole row: the gathered selection is the
-- best of all the lanes of all the ranks.
use mathlib.Core.List.{append_assoc, append-nil, map-append}
use glm_5_2_gb.Common.{
  ℕ, ◌≤◌, ◌≡◌, refl, sym, ap, ◌∙◌, arith, fun_ext, Option, List, [], ◌∷◌, ◌++◌, map, length, take,
  All, length-map, length-append,
}
use glm_5_2_gb.Common.Sort.{into}
use glm_5_2_gb.Common.Sort.Best.{best-append, best-best, length-best, All-best}
use glm_5_2_gb.Softmax.{neg_inf, fin}
use glm_5_2_gb.Dcp.TopK.{Score, Argsort, demote_pos, concat_map, pad, strict_topk}
use glm_5_2_gb.Dcp.TopK.Order.{Lane, invalid, demote, lane_order, le-invalid, best_lanes}
use glm_5_2_gb.Dcp.TopK.Select.{IsInRange, lanes_of}
use glm_5_2_gb.Dcp.TopK.Gather.{split, pad-strict_topk, pad-strict_topk_self}

-- A lane that a selection leaves as it is.
abbrev pub IsGood : Lane → Type 0
IsGood l = (demote l ≡ l) × IsInRange l.1

demote-IsGood : (s : Score) (p : Option ℕ) → IsInRange p → IsGood (demote (s, p))
unfolding demote_pos
demote-IsGood neg_inf p h = (refl, tt)
demote-IsGood (fin s) p h = (refl, h)

pub lanes-IsGood :
    (scores : List Score) (gpos : List (Option ℕ))
    → All IsInRange gpos
    → All IsGood (map demote (lanes_of scores gpos))
lanes-IsGood [] gpos h = tt
lanes-IsGood (s ∷ scores) [] h = tt
lanes-IsGood (s ∷ scores) (p ∷ gpos) h = (demote-IsGood s p h.0, lanes-IsGood scores gpos h.1)

demote_good : (xs : List Lane) → All IsGood xs → map demote xs ≡ xs
demote_good [] h = refl
demote_good (x ∷ xs) h = cc (h.0.0, demote_good xs h.1)

IsInRange-of_good : (xs : List Lane) → All IsGood xs → All IsInRange (map (λ l. l.1) xs)
IsInRange-of_good [] h = tt
IsInRange-of_good (x ∷ xs) h = (h.0.1, IsInRange-of_good xs h.1)

lanes_of-split : (xs : List Lane) → lanes_of (map (λ l. l.0) xs) (map (λ l. l.1) xs) ≡ xs
lanes_of-split [] = refl
lanes_of-split (x ∷ xs) = ap (λ r. x ∷ r) (lanes_of-split xs)

map-concat_map :
    {A B : Type 0} (g : A → B) (f : ℕ → List A) (rs : List ℕ)
    → concat_map (λ r. map g (f r)) rs ≡ map g (concat_map f rs)
map-concat_map g f [] = refl
map-concat_map g f (r ∷ rs) =
    ap (λ t. map g (f r) ++ t) (map-concat_map g f rs) ∙ sym (map-append g (f r) (concat_map f rs))

All-append : (P : Lane → Type 0) (xs ys : List Lane) → All P xs → All P ys → All P (xs ++ ys)
All-append P [] ys h k = k
All-append P (x ∷ xs) ys h k = (h.0, All-append P xs ys h.1 k)

All-concat_map :
    (P : Lane → Type 0) (f : ℕ → List Lane) (rs : List ℕ)
    → ((r : ℕ) → All P (f r))
    → All P (concat_map f rs)
All-concat_map P f [] h = tt
All-concat_map P f (r ∷ rs) h = All-append P (f r) (concat_map f rs) (h r) (All-concat_map P f rs h)

-- Parts that give the same best beside any others give the same best together.
pub best-concat_map :
    (k : ℕ) (f g : ℕ → List Lane) (rs : List ℕ) (ys : List Lane)
    → All (λ r. (zs : List Lane) → best_lanes k (f r ++ zs) ≡ best_lanes k (g r ++ zs)) rs
    → best_lanes k (concat_map f rs ++ ys) ≡ best_lanes k (concat_map g rs ++ ys)
best-concat_map k f g [] ys h = refl
best-concat_map k f g (r ∷ rs) ys h =
    ap (best_lanes k) (append_assoc (f r) (concat_map f rs) ys)
    ∙ h.0 (concat_map f rs ++ ys)
    ∙ best-append lane_order invalid le-invalid k (g r) (concat_map f rs ++ ys)
    ∙ ap (λ t. take k (into lane_order (g r) t)) (best-concat_map k f g rs ys h.1)
    ∙ sym (best-append lane_order invalid le-invalid k (g r) (concat_map g rs ++ ys))
    ∙ ap (best_lanes k) (sym (append_assoc (g r) (concat_map g rs) ys))

All-of : {P : ℕ → Type 0} (rs : List ℕ) → ((r : ℕ) → P r) → All P rs
All-of [] h = tt
All-of (r ∷ rs) h = (h r, All-of rs h)

module _ (a : Argsort) (k : ℕ) (part : ℕ → List Score × List (Option ℕ)) (lanes : ℕ → List Lane)
    (local : (r : ℕ) → part r ≡ split (best_lanes k (lanes r)))
    (good : (r : ℕ) → All IsGood (lanes r)) where
  abbrev gathered : List ℕ → List Lane
  gathered = concat_map (λ r. best_lanes k (lanes r))

  gathered-IsGood : (ranks : List ℕ) → All IsGood (gathered ranks)
  unfolding demote_pos
  gathered-IsGood ranks =
      All-concat_map IsGood _ ranks
        (λ r. All-best lane_order invalid le-invalid IsGood k (lanes r) (refl, tt) (good r))

  abbrev scores_of : List ℕ → List Score
  scores_of = concat_map (λ r. (part r).0)

  abbrev pos_of : List ℕ → List (Option ℕ)
  pos_of = concat_map (λ r. (part r).1)

  scores_of-eq : (ranks : List ℕ) → scores_of ranks ≡ map (λ l. l.0) (gathered ranks)
  scores_of-eq ranks =
      ap (λ f. concat_map f ranks) (fun_ext λ r. ap (λ p. p.0) (local r))
      ∙ map-concat_map (λ l. l.0) _ ranks

  pos_of-eq : (ranks : List ℕ) → pos_of ranks ≡ map (λ l. l.1) (gathered ranks)
  pos_of-eq ranks =
      ap (λ f. concat_map f ranks) (fun_ext λ r. ap (λ p. p.1) (local r))
      ∙ map-concat_map (λ l. l.1) _ ranks

  aligned : (ranks : List ℕ) → length (pos_of ranks) ≡ length (scores_of ranks)
  aligned ranks =
      rw (scores_of-eq ranks, pos_of-eq ranks)
        (length-map (gathered ranks) (λ (l : Lane). l.1)
          ∙ sym (length-map (gathered ranks) (λ (l : Lane). l.0)))

  in_range : (ranks : List ℕ) → All IsInRange (pos_of ranks)
  in_range ranks = rw (pos_of-eq ranks) (IsInRange-of_good (gathered ranks) (gathered-IsGood ranks))

  merged : (ranks : List ℕ) → best_lanes k (gathered ranks) ≡ best_lanes k (concat_map lanes ranks)
  merged ranks =
      rw (append-nil, append-nil) at
        (best-concat_map k (λ r. best_lanes k (lanes r)) lanes ranks []
          (All-of ranks (λ r zs. best-best lane_order invalid le-invalid k (lanes r) zs)))

  -- The selection from what all the ranks gathered is the best of all their lanes.
  pub pad-gathered :
      (ranks : List ℕ)
      → pad k (strict_topk a (scores_of ranks) (pos_of ranks) k)
        ≡ split (best_lanes k (concat_map lanes ranks))
  pad-gathered ranks =
      let same : lanes_of (scores_of ranks) (pos_of ranks) ≡ gathered ranks =
        rw (scores_of-eq ranks, pos_of-eq ranks) (lanes_of-split (gathered ranks)) in
      pad-strict_topk a (scores_of ranks) (pos_of ranks) (aligned ranks) (in_range ranks) k
      ∙ ap (λ xs. split (best_lanes k (map demote xs))) same
      ∙ ap (λ xs. split (best_lanes k xs)) (demote_good (gathered ranks) (gathered-IsGood ranks))
      ∙ ap split (merged ranks)

  -- With a rank there are enough lanes, and nothing is padded.
  pub pad-gathered_self :
      (r : ℕ) (rs : List ℕ)
      → pad k (strict_topk a (scores_of (r ∷ rs)) (pos_of (r ∷ rs)) k)
        ≡ strict_topk a (scores_of (r ∷ rs)) (pos_of (r ∷ rs)) k
  pad-gathered_self r rs =
      let enough : k ≤ length (scores_of (r ∷ rs)) =
        rw
          (
            scores_of-eq (r ∷ rs),
            length-map (gathered (r ∷ rs)) (λ (l : Lane). l.0),
            length-append (best_lanes k (lanes r)) (gathered rs),
            length-best lane_order invalid le-invalid k (lanes r),
          )
          (omega arith) in
      pad-strict_topk_self a (scores_of (r ∷ rs)) (pos_of (r ∷ rs)) (aligned (r ∷ rs))
        (in_range (r ∷ rs)) k enough
