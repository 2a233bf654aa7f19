-- ===== src/Dcp/TopK/Select.antt =====
-- Two stable sorts, by position and then by score, select the first lanes of the strict order.
use mathlib.Core.List.{Perm, map-map}
use mathlib.Core.List.Perm
use native.Mathlib.Decide.{ℕ_discrete}
use glm_5_2_gb.Common.{
  ℕ, zero, suc, ◌^◌, ◌<◌, ◌≤◌, min, true, false, ◌≡◌, refl, sym, ap, ◌∙◌, arith, Option, none, some,
  List, [], ◌∷◌, map, length, take, get_or, All, length-map, ltb, Bool-cases, inl, inr, fun_ext,
}
use glm_5_2_gb.Common.Permutations.{
  range, AllBelow, AllBelow-perm, AllBelow-range, All-get_or, Ordered-get_or, Ordered-map,
  pick-perm, get_or-map,
}
use glm_5_2_gb.Common.Sort.{IsOrdered}
use glm_5_2_gb.Softmax.{neg_inf, fin}
use glm_5_2_gb.Dcp.TopK.{
  Score, is_above, Argsort, gather, pos_key, demote_pos, zip_with, strict_topk,
}
use glm_5_2_gb.Dcp.TopK.Order.{Lane, demote, lane_le, lane_order}

-- A position that the key 2^62 of an invalid one is above.
abbrev pub IsInRange : Option ℕ → Type 0
IsInRange none = Unit {0}
IsInRange (some p) = p < 2 ^ 62

abbrev pub lanes_of : List Score → List (Option ℕ) → List Lane
lanes_of = zip_with (λ s p. (s, p))

-- The lane at a place.
abbrev pub lane_at : List Score → List (Option ℕ) → ℕ → Lane
lane_at scores gpos i = (get_or scores i neg_inf, get_or gpos i none)

lane_le_of_sorted :
    (s t : Score) (p q : Option ℕ)
    → IsInRange p
    → IsInRange q
    → is_above t s ≡ false
    → (is_above s t ≡ false → ltb (pos_key q) (pos_key p) ≡ false)
    → lane_le (demote (s, p)) (demote (t, q)) ≡ true
unfolding is_above pos_key lane_le demote_pos
lane_le_of_sorted neg_inf neg_inf p q hp hq above tie = refl
lane_le_of_sorted neg_inf (fin n) p q hp hq above tie = absurd (cc)
lane_le_of_sorted (fin m) neg_inf p q hp hq above tie = refl
lane_le_of_sorted (fin m) (fin n) p none hp hq above tie = ground arith
lane_le_of_sorted (fin m) (fin n) none (some q) hp hq above tie = elim (Bool-cases (ltb n m)) [
  | inl e ↦ rw e refl
  | inr e ↦ absurd (ground (arith, tie e))
]
lane_le_of_sorted (fin m) (fin n) (some p) (some q) hp hq above tie = elim (Bool-cases (ltb n m)) [
  | inl e ↦ rw e refl
  | inr e ↦ ground (arith, tie e)
]

IsInRange-get_or :
    (gpos : List (Option ℕ)) (i : ℕ) → All IsInRange gpos → IsInRange (get_or gpos i none)
IsInRange-get_or [] i h = tt
IsInRange-get_or (p ∷ gpos) zero h = h.0
IsInRange-get_or (p ∷ gpos) (suc i) h = IsInRange-get_or gpos i h.1

pub length-lanes_of :
    (scores : List Score) (gpos : List (Option ℕ))
    → length gpos ≡ length scores
    → length (lanes_of scores gpos) ≡ length scores
length-lanes_of [] gpos e = refl
length-lanes_of (s ∷ scores) [] e = absurd (omega arith)
length-lanes_of (s ∷ scores) (p ∷ gpos) e = ap suc (length-lanes_of scores gpos (omega arith))

get_or-lanes_of :
    (scores : List Score) (gpos : List (Option ℕ)) (i : ℕ)
    → length gpos ≡ length scores
    → get_or (lanes_of scores gpos) i (neg_inf, none) ≡ lane_at scores gpos i
get_or-lanes_of [] [] i e = refl
get_or-lanes_of [] (p ∷ gpos) i e = absurd (omega arith)
get_or-lanes_of (s ∷ scores) [] i e = absurd (omega arith)
get_or-lanes_of (s ∷ scores) (p ∷ gpos) zero e = refl
get_or-lanes_of (s ∷ scores) (p ∷ gpos) (suc i) e = get_or-lanes_of scores gpos i (omega arith)

take-map : {A B : Type 0} (m : ℕ) (f : A → B) (xs : List A) → take m (map f xs) ≡ map f (take m xs)
take-map zero f xs = refl
take-map (suc m) f [] = refl
take-map (suc m) f (x ∷ xs) = ap (λ r. f x ∷ r) (take-map m f xs)

zip_with-map :
    {A B C D : Type 0} (f : A → B → C) (g : D → A) (h : D → B) (xs : List D)
    → zip_with f (map g xs) (map h xs) ≡ map (λ x. f (g x) (h x)) xs
zip_with-map f g h [] = refl
zip_with-map f g h (x ∷ xs) = ap (λ r. f (g x) (h x) ∷ r) (zip_with-map f g h xs)

-- The order in which the two sorts put the lanes.
module _ (a : Argsort) (scores : List Score) (gpos : List (Option ℕ)) where
  abbrev first : List ℕ
  first = a.ascending (map pos_key gpos)

  abbrev second : List ℕ
  second = a.descending (gather neg_inf scores first)

  pub order : List ℕ
  order = gather 0 first second

  module _ (same : length gpos ≡ length scores) (inside : All IsInRange gpos) where
    first-perm : Perm first (range (length scores))
    first-perm =
        rw (length-map gpos pos_key, same) at ((a.ascending-IsStable (map pos_key gpos)).permutes)

    order-perm : Perm order (range (length scores))
    unfolding order gather
    order-perm =
        Perm.trans
          (pick-perm 0 first second (length (gather neg_inf scores first))
            (sym (length-map first (λ i. get_or scores i neg_inf)))
            (a.descending-IsStable _).permutes)
          first-perm

    order-below : AllBelow (length scores) order
    order-below = AllBelow-perm _ order (range (length scores)) order-perm (AllBelow-range _)

    -- The lanes in that order, demoted.
    pub sorted_lanes : List Lane
    sorted_lanes = map (λ i. demote (lane_at scores gpos i)) order

    pub sorted_lanes-perm : Perm sorted_lanes (map demote (lanes_of scores gpos))
    unfolding sorted_lanes
    sorted_lanes-perm =
        let picked = Perm.map demote (
          pick-perm (neg_inf, none) (lanes_of scores gpos) order (length scores)
            (length-lanes_of scores gpos same) order-perm) in
        rw (map-map, fun_ext (λ i. ap demote (get_or-lanes_of scores gpos i same))) at picked

    first-below : (i : ℕ) → i < length first → get_or first i 0 < length gpos
    first-below i h = rw (← same) at (
        All-get_or (λ k. k < length scores) 0 first i
          (AllBelow-perm _ first (range (length scores)) first-perm (AllBelow-range _)) h)

    ordered :
        (i j : ℕ)
        → i < length first
        → j < length first
        → i < j
        → ltb
            (pos_key (get_or gpos (get_or first j 0) none))
            (pos_key (get_or gpos (get_or first i 0) none))
          ≡ false
    ordered i j hi hj before =
        let keys = map pos_key gpos in
        let ki = get_or-map pos_key none 0 gpos (get_or first i 0) (first-below i hi) in
        let kj = get_or-map pos_key none 0 gpos (get_or first j 0) (first-below j hj) in
        rw (ki, kj) at
          ((Ordered-get_or _ 0 first i j (a.ascending-IsStable keys).sorted before hj).0)

    step :
        (i j : ℕ)
        → i < length first
        → j < length first
        → (is_above
              (get_or (gather neg_inf scores first) j neg_inf)
              (get_or (gather neg_inf scores first) i neg_inf)
            ≡ false)
          × (is_above
                  (get_or (gather neg_inf scores first) i neg_inf)
                  (get_or (gather neg_inf scores first) j neg_inf)
                ≡ false
              → i ≤ j)
        → lane_le
            (demote (lane_at scores gpos (get_or first i 0)))
            (demote (lane_at scores gpos (get_or first j 0)))
          ≡ true
    unfolding gather
    step i j hi hj (above, tie) =
        let score = λ (k : ℕ). get_or scores k neg_inf in
        let si = get_or-map score 0 neg_inf first i hi in
        let sj = get_or-map score 0 neg_inf first j hj in
        lane_le_of_sorted _ _ _ _ (IsInRange-get_or gpos _ inside) (IsInRange-get_or gpos _ inside)
          (rw (si, sj) at above)
          λ equal.
            let before : i ≤ j = tie (rw (si, sj) equal) in
            elim (ℕ_discrete i j) [
              | yes e ↦ rw e (ground arith)
              | no ne ↦ ordered i j hi hj (omega arith)
            ]

    pub sorted_lanes-IsOrdered : IsOrdered lane_order sorted_lanes
    unfolding sorted_lanes order lane_order gather
    sorted_lanes-IsOrdered =
        let stable = a.descending-IsStable (gather neg_inf scores first) in
        let below =
          AllBelow-perm (length first) second (range (length first))
            (rw (length-map first (λ i. get_or scores i neg_inf)) at stable.permutes)
            (AllBelow-range (length first)) in
        rw map-map (
          Ordered-map _ (λ i. i < length first) _
            (λ i. demote (lane_at scores gpos (get_or first i 0))) step second below stable.sorted)

    pub strict_topk_lem :
        (k : ℕ)
        → strict_topk a scores gpos k ≡ (
          map (λ l. l.0) (take (min k (length scores)) sorted_lanes),
          map (λ l. l.1) (take (min k (length scores)) sorted_lanes),
        )
    unfolding strict_topk sorted_lanes order gather demote_pos
    strict_topk_lem k =
        let m = min k (length scores) in
        let lane = λ (i : ℕ). demote (lane_at scores gpos i) in
        λ i. (
          sym (ap (map (λ l. l.0)) (take-map m lane order) ∙ map-map _ lane (take m order)) i,
          (zip_with-map demote_pos (λ k. get_or scores k neg_inf) (λ k. get_or gpos k none)
                  (take m order)
                ∙ sym (ap (map (λ l. l.1)) (take-map m lane order) ∙ map-map _ lane (take m order)))
              i,
        )
