-- ===== src/Indexer/Merge.antt =====
-- One merge keeps the best lanes of what was seen.
use mathlib.Core.List.Perm
use mathlib.Core.Option.{Option-elim}
use mathlib.Core.Path.{ap₂}
use mathlib.Core.List.{Perm, filter_map, map-append}
use glm_5_2_gb.Common.{
  ℕ, Bool, true, false, not, ◌≡◌, inl, inr, refl, sym, ap, ◌∙◌, Option, none, some, List, [], ◌∷◌,
  ◌++◌, map, length, length-map, All, get_or, Bool-cases,
}
use glm_5_2_gb.Common.Permutations.{pick-perm}
use glm_5_2_gb.Softmax.{Logit, neg_inf, fin}
use glm_5_2_gb.Indexer.Counts.{All-weaken, All-map, All_every, kept_pass}
use glm_5_2_gb.Indexer.Chosen.{get_or-map_pad, All-get_or_pad, lane_position, chosen, IsLane}
use glm_5_2_gb.Indexer.{Values, IsExactSum, Lane, pad_lane, is_above, IsTopk, mask_lane}

module _ {v : Values} (laws : IsExactSum v) where
  -- What is above a kept value and not above another is above that one.
  above-split :
      (d k y : Logit v.V) → is_above v d k ≡ true → is_above v y k ≡ false → is_above v d y ≡ true
  unfolding is_above
  above-split neg_inf k y h h' = absurd (let e : false ≡ true = h in cc)
  above-split (fin m) k neg_inf h h' = refl
  above-split (fin m) neg_inf (fin n) h h' = absurd (let e : true ≡ false = h' in cc)
  above-split (fin m) (fin k) (fin n) h h' = laws.above-split m k n h h'

  -- A kept value is not below what is not above a value left out.
  separates :
      (d k y : Logit v.V)
      → is_above v y k ≡ false
      → is_above v d y ≡ false
      → not (is_above v d k) ≡ true
  separates d k y h h' = elim (Bool-cases (is_above v d k)) [
    | inl e ↦ let e' = above-split d k y e h in cc
    | inr e ↦ rw e refl
  ]

pub passes_false : (b : Bool) → not b ≡ true → b ≡ false
passes_false true h = absurd (let h' : false ≡ true = h in cc)
passes_false false h = refl

pub fin_neg : (v : Values) (s : v.V) → ¬ (fin s ≡ neg_inf)
fin_neg v s h = cc

module _ {A B : Type 0} (R : A → B → Type 0) where
  pub All-swap :
      (xs : List A) (ys : List B) → All (λ x. All (R x) ys) xs → All (λ y. All (λ x. R x y) xs) ys
  All-swap xs [] h = tt
  All-swap xs (y ∷ ys) h = (
    All-weaken (λ x. All (R x) (y ∷ ys)) (λ x. R x y) xs (λ x h'. h'.0) h,
    All-swap xs ys (All-weaken (λ x. All (R x) (y ∷ ys)) (λ x. All (R x) ys) xs (λ x h'. h'.1) h),
  )

module _ (v : Values) (logit : ℕ → Logit v.V) where
  -- No dropped position has a logit above a lane's.
  abbrev pub Beats : List ℕ → Lane v → Type 0
  Beats dropped l = All (λ d. is_above v (logit d) l.0 ≡ false) dropped

  -- `k` lanes hold the best positions of those seen.
  pub record Best (k : ℕ) (seen : List ℕ) (lanes : List (Lane v)) : Type 0 where
    pub size : length lanes ≡ k
    pub named : All (IsLane v logit) lanes
    pub dropped : List ℕ
    pub permutes : Perm (chosen v logit lanes ++ dropped) seen
    pub ordered : All (Beats dropped) lanes

  -- A bound on lanes bounds the logits of their positions.
  pub chosen-below :
      (t : Logit v.V) (lanes : List (Lane v))
      → All (IsLane v logit) lanes
      → All (λ r. is_above v r.0 t ≡ false) lanes
      → All (λ d. is_above v (logit d) t ≡ false) (chosen v logit lanes)
  unfolding filter_map lane_position
  chosen-below t [] named below = tt
  chosen-below t ((neg_inf, i) ∷ lanes) named below = chosen-below t lanes named.1 below.1
  chosen-below t ((fin s, none) ∷ lanes) named below = chosen-below t lanes named.1 below.1
  chosen-below t ((fin s, some p) ∷ lanes) named below = elim named.0 [
    | inl e ↦ absurd (fin_neg v s e)
    | inr (p', e, e') ↦
        let same : p ≡ p' = cc in (rw (same, ← e') below.0, chosen-below t lanes named.1 below.1)
  ]

  module _ (laws : IsExactSum v) where
    -- The lanes of a selection, and those that it leaves.
    module _ (k : ℕ) (xs : List (Lane v)) (sel : List ℕ) (top : IsTopk v k (map (λ l. l.0) xs) sel)
        (named : All (IsLane v logit) xs) where
      abbrev pub pick : ℕ → Lane v
      pick i = get_or xs i (pad_lane v)

      abbrev pub kept : List (Lane v)
      kept = map pick sel

      abbrev pub left_out : List (Lane v)
      left_out = map pick top.left

      pub kept-perm : Perm (kept ++ left_out) xs
      kept-perm = rw (map-append pick sel top.left) at (
          pick-perm (pad_lane v) xs (sel ++ top.left) (length (map (λ (l : Lane v). l.0) xs))
            (sym (length-map xs (λ (l : Lane v). l.0))) top.permutes)

      pub pick-named : (i : ℕ) → IsLane v logit (pick i)
      pick-named i = All-get_or_pad (IsLane v logit) (pad_lane v) xs i (inl refl) named

      kept-best : All (λ l. All (λ r. is_above v r.0 l.0 ≡ false) left_out) kept
      kept-best = All-map _ pick sel (
          All-weaken _ _ sel
            (λ i h. All-map _ pick top.left (
              All-weaken _ _ top.left
                (λ j h'.
                  rw
                    (
                      get_or-map_pad (λ (l : Lane v). l.0) (pad_lane v) xs i,
                      get_or-map_pad (λ (l : Lane v). l.0) (pad_lane v) xs j,
                    )
                    at h')
                h))
            top.best)

      -- Against the positions that the selection leaves out.
      pub kept-Beats : All (Beats (chosen v logit left_out)) kept
      kept-Beats =
          All-weaken _ _ kept
            (λ l h.
              chosen-below l.0 left_out
                (All-map (IsLane v logit) pick top.left
                  (All_every (λ i. IsLane v logit (pick i)) top.left pick-named))
                h)
            kept-best

      -- Against a position that no lane of a part as long as the selection has below it.
      pub kept-still :
          (part others : List (Lane v)) (d : ℕ)
          → Perm (part ++ others) xs
          → length part ≡ k
          → All (λ l. is_above v (logit d) l.0 ≡ false) part
          → All (λ l. is_above v (logit d) l.0 ≡ false) kept
      kept-still part others d same size beaten =
          let passes : Lane v → Bool = λ l. not (is_above v (logit d) l.0) in
          All-weaken _ _ kept (λ l h. passes_false (is_above v (logit d) l.0) h)
            (kept_pass passes kept left_out part others (Perm.trans kept-perm (Perm.symm same))
              (length-map sel pick ∙ top.size ∙ sym size)
              (All-weaken _ _ part (λ l h. ap not h) beaten)
              (All-weaken _ _ kept
                (λ l. All-weaken _ _ left_out (λ r h h'.
                  separates laws (logit d) l.0 r.0 h (passes_false (is_above v (logit d) r.0) h')))
                kept-best))

    -- The mask of the indices changes no position and no value.
    mask_value : (l : Lane v) → (mask_lane v l).0 ≡ l.0
    unfolding mask_lane
    mask_value (neg_inf, i) = refl
    mask_value (fin s, i) = refl

    mask_named : (l : Lane v) → IsLane v logit l → IsLane v logit (mask_lane v l)
    unfolding mask_lane
    mask_named (neg_inf, i) h = inl refl
    mask_named (fin s, i) h = h

    mask_position : (l : Lane v) → lane_position v logit (mask_lane v l) ≡ lane_position v logit l
    unfolding mask_lane lane_position
    mask_position (neg_inf, i) = refl
    mask_position (fin s, i) = refl

    chosen-mask :
        (lanes : List (Lane v)) → chosen v logit (map (mask_lane v) lanes) ≡ chosen v logit lanes
    unfolding filter_map
    chosen-mask [] = refl
    chosen-mask (l ∷ lanes) =
        ap₂ (λ (o : Option ℕ) (r : List ℕ). Option-elim o r (λ b. b ∷ r)) (mask_position l)
          (chosen-mask lanes)

    pub masked-Best :
        {k : ℕ} {seen : List ℕ} (lanes : List (Lane v))
        → Best k seen lanes
        → Best k seen (map (mask_lane v) lanes)
    masked-Best lanes b = record {
      size = length-map lanes (mask_lane v) ∙ b.size;
      named =
          All-map (IsLane v logit) (mask_lane v) lanes (All-weaken _ _ lanes mask_named b.named);
      dropped = b.dropped;
      permutes = rw (chosen-mask lanes) b.permutes;
      ordered =
          All-map (Beats b.dropped) (mask_lane v) lanes
            (All-weaken _ _ lanes (λ l h. rw (mask_value l) h) b.ordered);
    }
